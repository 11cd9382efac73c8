-- ===== src/Client/Meta.antt =====
-- client/meta.go: the headers of a request, from its options, and a clip from those of a response.
use buff.Common.{
  ℕ, ◌-◌, Bool, true, false, Option, none, some, [], ◌∷◌, Bytes, slt64, bytes_eq, ltb, ◌==◌,
  read_digits, int64_end, word, if◌then◌else◌,
}
use buff.Clip.Meta.{Meta, Clip, normalized}
use buff.Client.Opts.{PutOpts, GetOpts}
use buff.Wire.Headers.{
  Header, get, set_if, header_kind, header_filename, header_executable, header_ttl, header_keep,
  header_consume, header_if_match, header_wait, header_follow_next, flag_on, Codec,
}
use buff.Wire.Responses.{
  header_generation, header_finalized, header_size, header_expires, bool_true, Clock,
}

abbrev pub is_set : Bytes → Bool
is_set [] = false
is_set (c ∷ s) = true

unfoldable pub encode_headers : Codec → Meta → PutOpts → Header
encode_headers k m o = set_if (is_set o.if_match) header_if_match o.if_match (
    set_if o.consume_once header_consume flag_on (
      set_if o.keep header_keep flag_on (
        set_if (slt64 0 o.ttl) header_ttl (k.show_duration o.ttl) (
          set_if m.executable header_executable flag_on (
            set_if (is_set m.filename) header_filename (k.escape m.filename)
              ((header_kind, m.kind) ∷ []))))))

unfoldable pub get_headers : GetOpts → Header
get_headers o =
    set_if o.follow_next header_follow_next flag_on (set_if o.wait header_wait flag_on [])

-- An unsigned magnitude, clamped as strconv.ParseInt clamps it; no digits are a syntax error.
abbrev magnitude : ℕ → Option ℕ → ℕ
magnitude limit none = 0
magnitude limit (some n) = if ltb limit n then limit else n

abbrev spelled : Bytes → Option ℕ
spelled [] = none
spelled (c ∷ s) = read_digits 0 (c ∷ s)

abbrev negated : ℕ → ℕ
negated n = if n == 0 then 0 else word - n

-- `atoi64`: the int64 pattern that `ParseInt` returns, its error ignored.
unfoldable pub atoi64 : Bytes → ℕ
unfolding read_digits
atoi64 [] = 0
atoi64 (c ∷ s) =
    if c == b'-'
    then negated (magnitude int64_end (spelled s))
    else magnitude (int64_end - 1) (if c == b'+' then spelled s else spelled (c ∷ s))

-- `parseTime`: the zero time is `none`.
unfoldable pub parse_time : Clock → Bytes → Option ℕ
parse_time k [] = none
parse_time k (c ∷ s) = k.parse_rfc3339 (c ∷ s)

abbrev pub decoded_filename : Option Bytes → Bytes
decoded_filename none = []
decoded_filename (some d) = d

-- An absent or malformed filename is dropped.
unfoldable pub read_filename : Codec → Bytes → Bytes
read_filename k [] = []
read_filename k (c ∷ s) = decoded_filename (k.unescape (c ∷ s))

-- `parseClip`. The two instants that no response carries are zero.
unfoldable pub parse_clip : Codec → Clock → Bytes → Header → Clip
unfolding get bytes_eq normalized read_filename atoi64 parse_time
parse_clip k clock name h =
    let finalized = bytes_eq (get h header_finalized) bool_true in
    record {
      name = name;
      generation = get h header_generation;
      metadata = normalized (record {
        kind = get h header_kind;
        filename = read_filename k (get h header_filename);
        executable = bytes_eq (get h header_executable) bool_true;
      });
      size = if finalized then atoi64 (get h header_size) else 0;
      created_at = 0;
      finalized_at = none;
      expires_at = if finalized then parse_time clock (get h header_expires) else none;
      consume_once = bytes_eq (get h header_consume) bool_true;
      finalized = finalized;
    }
