-- ===== src/Api/Request.antt =====
-- api/request.go: the options of a request, from its headers.
use buff.Common.{
  ℕ, Bool, true, false, Option, none, some, ◌⊎◌, inl, inr, [], ◌∷◌, Bytes, bytes_eq, slt64,
  if◌then◌else◌,
}
use buff.Clip.Errors.{Error, bad_request}
use buff.Clip.Name.{valid_filename}
use buff.Clip.Meta.{Kind, kind_bytes, kind_valid, Meta}
use buff.Store.Create.{PutOpts}
use buff.Store.Open.{GetOpts}
use buff.Wire.Headers.{
  Header, get, header_kind, header_filename, header_executable, header_ttl, header_keep,
  header_consume, header_if_match, header_wait, header_follow_next, flag_on, Codec,
}

-- The rest of a parse, unless there was an error.
abbrev pub and_then : {A B : Type 0} → A ⊎ Error → (A → B ⊎ Error) → B ⊎ Error
and_then (inl a) f = f a
and_then (inr e) f = inr e

abbrev pub parse_flag : Bytes → Bool ⊎ Error
parse_flag [] = inl false
parse_flag (c ∷ v) = if bytes_eq (c ∷ v) flag_on then inl true else inr bad_request

unfoldable pub bool_header : Header → Bytes → Bool ⊎ Error
unfolding get bytes_eq
bool_header h name = parse_flag (get h name)

unfoldable pub parse_kind : Bytes → Kind ⊎ Error
unfolding kind_valid
parse_kind [] = inl kind_bytes
parse_kind (c ∷ v) = if kind_valid (c ∷ v) then inl (c ∷ v) else inr bad_request

abbrev pub checked_filename : Bytes → Option Error → Bytes ⊎ Error
checked_filename name none = inl name
checked_filename name (some e) = inr e

unfoldable pub parse_filename : Codec → Bytes → Bytes ⊎ Error
unfolding valid_filename
parse_filename k [] = inl []
parse_filename k (c ∷ v) = elim (k.unescape (c ∷ v)) [
  | none ↦ inr bad_request
  | some name ↦ checked_filename name (valid_filename name)
]

unfoldable pub parse_ttl : Codec → Bytes → ℕ ⊎ Error
parse_ttl k [] = inl 0
parse_ttl k (c ∷ v) = elim (k.read_duration (c ∷ v)) [
  | none ↦ inr bad_request
  | some d ↦ if slt64 d 0 then inr bad_request else inl d
]

unfoldable pub parse_put : Codec → Header → (Meta × PutOpts) ⊎ Error
unfolding get bool_header parse_kind parse_filename parse_ttl
parse_put k h = and_then (parse_kind (get h header_kind)) λ kind.
    and_then (parse_filename k (get h header_filename)) λ filename.
      and_then (parse_ttl k (get h header_ttl)) λ ttl. and_then (bool_header h header_keep) λ keep.
        and_then (bool_header h header_consume) λ consume.
          and_then (bool_header h header_executable) λ executable. inl (
            record { kind = kind; filename = filename; executable = executable },
            record {
              ttl = ttl;
              keep = keep;
              consume_once = consume;
              if_match = get h header_if_match;
            },
          )

unfoldable pub parse_get : Header → GetOpts ⊎ Error
unfolding bool_header
parse_get h = and_then (bool_header h header_wait) λ wait.
    and_then (bool_header h header_follow_next)
      λ follow_next. inl (record { wait = wait; follow_next = follow_next })
