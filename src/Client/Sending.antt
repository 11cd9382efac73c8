-- ===== src/Client/Sending.antt =====
-- A request that the client sends is the request that the server reads.
pub mod Layers
pub mod Put
use buff.Common.{
  ℕ, ◌≡◌, ◌≢◌, refl, ◌∙◌, subst, ap, ◌⊎◌, inl, inr, Bool, true, false, Option, none, some, [], ◌∷◌,
  Bytes, bytes_eq, slt64, arith, if◌then◌else◌, Bool-cases, if_elim,
}
use buff.Clip.Errors.{Error}
use buff.Clip.Name.{valid_filename}
use buff.Clip.Meta.{Meta, kind_valid}
use buff.Client.Opts.{PutOpts, GetOpts}
use buff.Client.Meta.{encode_headers, get_headers, is_set}
use buff.Api.Request.{
  parse_put, parse_get, bool_header, parse_kind, parse_filename, parse_ttl, parse_flag,
  checked_filename, and_then,
}
use buff.Wire.Headers.{
  Header, get, set_if, header_kind, header_filename, header_executable, header_ttl, header_keep,
  header_consume, header_if_match, header_wait, header_follow_next, flag_on, Codec, IsCodec,
}

pub get_past :
    (c : Bool) (key value : Bytes) (h : Header) (name : Bytes)
    → bytes_eq key name ≡ false
    → get (set_if c key value h) name ≡ get h name
unfolding get
get_past true key value h name e = rw (e, get) refl
get_past false key value h name e = refl

pub get_here :
    (c : Bool) (key value : Bytes) (h : Header)
    → bytes_eq key key ≡ true
    → get (set_if c key value h) key ≡ (if c then value else get h key)
unfolding get
get_here true key value h e = rw (e, get) refl
get_here false key value h e = refl

-- What `parse_flag` reads of a flag that was sent or not.
pub parse_flag_lem : (c : Bool) → parse_flag (if c then flag_on else []) ≡ inl c
unfolding bytes_eq
parse_flag_lem true = refl
parse_flag_lem false = refl

pub whole_match : (s : Bytes) → (if is_set s then s else []) ≡ s
whole_match [] = refl
whole_match (c ∷ s) = refl

pub valid_kind : (v : Bytes) → kind_valid v ≡ true → parse_kind v ≡ inl v
unfolding parse_kind kind_valid bytes_eq
valid_kind [] h = cc
valid_kind (c ∷ v) h = rw (h, parse_kind) refl

decoded_name :
    (k : Codec) (v name : Bytes)
    → v ≢ []
    → k.unescape v ≡ some name
    → valid_filename name ≡ none
    → parse_filename k v ≡ inl name
unfolding parse_filename
decoded_name k [] name n u h = absurd (n refl)
decoded_name k (c ∷ v) name n u h = rw (u, parse_filename, h, checked_filename) refl

pub escaped_filename :
    (k : Codec) (name : Bytes)
    → IsCodec k
    → (name ≡ []) ⊎ (valid_filename name ≡ none)
    → parse_filename k (if is_set name then k.escape name else []) ≡ inl name
unfolding parse_filename
escaped_filename k [] c h = refl
escaped_filename k (d ∷ s) c (inl e) = cc
escaped_filename k (d ∷ s) c (inr e) =
    decoded_name k (k.escape (d ∷ s)) (d ∷ s) (c.escape_written (d ∷ s) (λ q. cc))
      (c.unescape_escape (d ∷ s)) e

parsed_duration :
    (k : Codec) (v : Bytes) (d : ℕ)
    → v ≢ []
    → k.read_duration v ≡ some d
    → slt64 d 0 ≡ false
    → parse_ttl k v ≡ inl d
unfolding parse_ttl
parsed_duration k [] d n u h = absurd (n refl)
parsed_duration k (c ∷ v) d n u h = rw (u, parse_ttl, h, parse_ttl) refl

pub valid_ttl :
    (k : Codec) (d : ℕ)
    → IsCodec k
    → slt64 d 0 ≡ false
    → parse_ttl k (if slt64 0 d then k.show_duration d else []) ≡ inl (if slt64 0 d then d else 0)
unfolding parse_ttl
valid_ttl k d c h = elim (Bool-cases (slt64 0 d)) [
  | inl e ↦ rw e (parsed_duration k (k.show_duration d) d (c.show_written d) (c.read_show d) h)
  | inr e ↦ rw e refl
]

parsed_get :
    (w f : Bool)
    → parse_get (get_headers (record { wait = w; follow_next = f }))
      ≡ inl (record { wait = w; follow_next = f })
unfolding parse_get get_headers bool_header get bytes_eq
parsed_get true true = refl
parsed_get true false = refl
parsed_get false true = refl
parsed_get false false = refl

-- The server reads of the headers of a read exactly the options that the client was given.
pub parse_get-get_headers :
    (o : GetOpts)
    → parse_get (get_headers o) ≡ inl (record { wait = o.wait; follow_next = o.follow_next })
parse_get-get_headers o = parsed_get o.wait o.follow_next
