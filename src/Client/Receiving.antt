-- ===== src/Client/Receiving.antt =====
-- What the server says of a clip (api/framing.go) is what the client reads (client/meta.go).
pub mod Numbers
pub mod Layers
use buff.Common.{
  ℕ, zero, suc, ◌+◌, ◌/◌, ◌%◌, ◌<◌, ◌≤◌, ◌≡◌, ◌≢◌, refl, sym, ap, ◌∙◌, Bool, true, false, Option,
  none, some, [], ◌∷◌, ◌++◌, Bytes, arith, bytes_eq, codes, ltb, if◌then◌else◌, if_elim, digits,
  decimal, read_digits, read_digits-digits, int64_end, lt→ltb,
}
use buff.Clip.Meta.{Meta, Clip, normalized}
use buff.Wire.Headers.{
  Header, get, set_if, header_kind, header_filename, header_executable, header_consume, Codec,
  IsCodec,
}
use buff.Wire.Responses.{
  header_generation, header_finalized, header_size, header_expires, bool_true, format_bool, Clock,
  IsClock, whole_seconds,
}
use buff.Api.Framing.{set_clip_meta, write_headers, itoa, is_present, set_expires}
use buff.Client.Meta.{parse_clip, atoi64, parse_time, read_filename}
use buff.Client.Sending.{get_past, get_here}
use buff.Client.Receiving.Numbers.{atoi64-itoa}
use buff.Client.Receiving.Layers.{
  layer_kind, layer_finalized, layer_consume, layer_filename, layer_executable, layer_size,
  get_generation, get_kind, get_finalized, get_consume, get_filename, get_executable, get_size,
}

present_filename :
    (k : Codec) (v name : Bytes) → v ≢ [] → k.unescape v ≡ some name → read_filename k v ≡ name
unfolding read_filename
present_filename k [] name n u = absurd (n refl)
present_filename k (c ∷ v) name n u = rw (u, read_filename) refl

read_filename-escape :
    (k : Codec) (name : Bytes)
    → IsCodec k
    → read_filename k (if is_present name then k.escape name else []) ≡ name
unfolding read_filename
read_filename-escape k [] c = refl
read_filename-escape k (d ∷ s) c =
    present_filename k (k.escape (d ∷ s)) (d ∷ s) (c.escape_written (d ∷ s) (λ q. cc))
      (c.unescape_escape (d ∷ s))

-- An expiry, as the client reads it.
abbrev pub read_expiry : Option ℕ → Option ℕ
read_expiry none = none
read_expiry (some t) = some (whole_seconds t)

pub parse_time_written :
    (k : Clock) (v : Bytes) (t : ℕ) → v ≢ [] → k.parse_rfc3339 v ≡ some t → parse_time k v ≡ some t
unfolding parse_time
parse_time_written k [] t n e = absurd (n refl)
parse_time_written k (c ∷ v) t n e = e

expires_read :
    (clock : Clock) (o : Option ℕ) (h : Header)
    → IsClock clock
    → get h header_expires ≡ []
    → parse_time clock (get (set_expires clock true o h) header_expires) ≡ read_expiry o
unfolding parse_time get bytes_eq
expires_read clock none h w e = rw e refl
expires_read clock (some t) h w e =
    parse_time_written clock (clock.format_time t) (whole_seconds t) (w.format_written t)
      (w.parse-format t)

-- The clip that a response tells of.
abbrev pub as_read : Clip → Clip
as_read c = record c {
  created_at = 0;
  finalized_at = none;
  size = if c.finalized then c.size else 0;
  expires_at = if c.finalized then read_expiry c.expires_at else none;
}

format_bool_read : (b : Bool) → bytes_eq (format_bool b) bool_true ≡ b
unfolding bytes_eq
format_bool_read true = refl
format_bool_read false = refl

present_read : (b : Bool) → bytes_eq (if b then bool_true else []) bool_true ≡ b
unfolding bytes_eq
present_read true = refl
present_read false = refl

-- No header that describes a clip is set yet.
record IsBlank (h : Header) : Type 0 where
  no_filename : get h header_filename ≡ []
  no_executable : get h header_executable ≡ []
  no_expires : get h header_expires ≡ []

expires_last :
    (k : Codec) (clock : Clock) (c : Clip) (h : Header)
    → IsClock clock
    → IsBlank h
    → c.finalized ≡ true
    → parse_time clock (get (set_clip_meta k clock c h) header_expires) ≡ read_expiry c.expires_at
unfolding set_clip_meta get bytes_eq
expires_last k clock c h w b f =
    let l = layer_size k clock c h in
    let e : get l header_expires ≡ [] =
      get_past c.finalized header_size (itoa c.size) (layer_executable k clock c h) header_expires
        refl
      ∙ get_past c.metadata.executable header_executable bool_true (layer_filename k clock c h)
          header_expires refl
      ∙ get_past (is_present c.metadata.filename) header_filename (k.escape c.metadata.filename)
          (layer_consume k clock c h) header_expires refl
      ∙ b.no_expires in
    ap (λ g. parse_time clock (get (set_expires clock g c.expires_at l) header_expires)) f
    ∙ expires_read clock c.expires_at l w e

abbrev parts : Bytes → Bytes → Meta → ℕ → Option ℕ → Bool → Bool → Clip
parts name generation m size expires consume finalized = record {
  name = name;
  generation = generation;
  metadata = m;
  size = size;
  created_at = 0;
  finalized_at = none;
  expires_at = expires;
  consume_once = consume;
  finalized = finalized;
}

same_parts :
    (name g g' : Bytes) (m m' : Meta) (s s' : ℕ) (e e' : Option ℕ) (o o' f f' : Bool)
    → g ≡ g'
    → m ≡ m'
    → s ≡ s'
    → e ≡ e'
    → o ≡ o'
    → f ≡ f'
    → parts name g m s e o f ≡ parts name g' m' s' e' o' f'
same_parts name g g' m m' s s' e e' o o' f f' p q r t u v = cc

same_meta :
    (kind kind' filename filename' : Bytes) (x x' : Bool)
    → kind ≡ kind'
    → filename ≡ filename'
    → x ≡ x'
    → normalized (record { kind = kind; filename = filename; executable = x })
      ≡ normalized (record { kind = kind'; filename = filename'; executable = x' })
same_meta kind kind' filename filename' x x' p q r = cc

if_same {ℓ} :
    {A : Type ℓ} (b c : Bool) (x y z : A)
    → b ≡ c
    → (c ≡ true → x ≡ y)
    → (if b then x else z) ≡ (if c then y else z)
if_same b true x y z e f = rw (e, f refl) refl
if_same b false x y z e f = rw e refl

-- A clip survives its response. What the client reads of the headers of a clip, of normal metadata
-- and of less than 2 ^ 63 bytes, is that clip: its generation, kind, file name, run bit, consume-once
-- and state, and once it is finalized its size and its expiry in whole seconds; the size and the
-- expiry of a live clip and the instants of creation and finalization are not told.
pub parse_clip-write_headers :
    (k : Codec) (clock : Clock) (c : Clip)
    → IsCodec k
    → IsClock clock
    → normalized c.metadata ≡ c.metadata
    → c.size < int64_end
    → parse_clip k clock c.name (write_headers k clock c []) ≡ as_read c
unfolding parse_clip write_headers get bytes_eq
parse_clip-write_headers k clock c w v n l =
    let h =
      (codes "X-Content-Type-Options", codes "nosniff")
      ∷ (codes "Content-Type", codes "application/octet-stream")
      ∷ [] in
    let b : IsBlank h = record { no_filename = refl; no_executable = refl; no_expires = refl } in
    let g = set_clip_meta k clock c h in
    let f =
      ap (λ s. bytes_eq s bool_true) (get_finalized k clock c h) ∙ format_bool_read c.finalized in
    let o =
      ap (λ s. bytes_eq s bool_true) (get_consume k clock c h) ∙ format_bool_read c.consume_once in
    let x =
      ap (λ s. bytes_eq s bool_true) (get_executable k clock c h b.no_executable)
      ∙ present_read c.metadata.executable in
    let y =
      ap (read_filename k) (get_filename k clock c h b.no_filename)
      ∙ read_filename-escape k c.metadata.filename w in
    let m =
      same_meta (get g header_kind) c.metadata.kind (read_filename k (get g header_filename))
        c.metadata.filename (bytes_eq (get g header_executable) bool_true) c.metadata.executable
        (get_kind k clock c h) y x
      ∙ n in
    let size =
      if_same (bytes_eq (get g header_finalized) bool_true) c.finalized (atoi64 (get g header_size))
        c.size 0 f (λ e. ap atoi64 (get_size k clock c h e) ∙ atoi64-itoa c.size l) in
    let expires =
      if_same (bytes_eq (get g header_finalized) bool_true) c.finalized
        (parse_time clock (get g header_expires)) (read_expiry c.expires_at) none f
        (λ e. expires_last k clock c h v b e) in
    same_parts c.name _ _ _ _ _ _ _ _ _ _ _ _ (get_generation k clock c h) m size expires o f
