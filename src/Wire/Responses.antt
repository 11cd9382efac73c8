-- ===== src/Wire/Responses.antt =====
-- wire/wire.go: the header names of a response, its booleans and its completion trailer.
use buff.Common.{ℕ, ◌*◌, ◌/◌, ◌≡◌, ◌≢◌, Bool, true, false, Option, some, [], Bytes, codes}

abbrev pub header_generation : Bytes
header_generation = codes "Buff-Generation"

abbrev pub header_finalized : Bytes
header_finalized = codes "Buff-Finalized"

abbrev pub header_size : Bytes
header_size = codes "Buff-Size"

abbrev pub header_expires : Bytes
header_expires = codes "Buff-Expires"

abbrev pub header_status : Bytes
header_status = codes "Buff-Status"

abbrev pub bool_true : Bytes
bool_true = codes "true"

abbrev pub status_complete : Bytes
status_complete = codes "complete"

-- `strconv.FormatBool`
abbrev pub format_bool : Bool → Bytes
format_bool true = codes "true"
format_bool false = codes "false"

-- `Time.Format` and `time.Parse` of an instant in RFC 3339.
pub record Clock : Type 0 where
  pub format_time : ℕ → Bytes
  pub parse_rfc3339 : Bytes → Option ℕ

-- An instant in whole seconds.
abbrev pub whole_seconds : ℕ → ℕ
whole_seconds t = t / 1000000000 * 1000000000

-- What package time documents: the layout has no fraction of a second, so what is read back is the
-- instant in whole seconds; and something is written.
pub record IsClock (k : Clock) : Type 0 where
  pub parse-format : (t : ℕ) → k.parse_rfc3339 (k.format_time t) ≡ some (whole_seconds t)
  pub format_written : (t : ℕ) → k.format_time t ≢ []
