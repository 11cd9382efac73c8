-- ===== src/Wire/Headers.antt =====
-- wire/wire.go: the header names of a request; net/http's header as an association list, whose
-- absent names read as the empty string.
use buff.Common.{
  ℕ, ◌≡◌, ◌≢◌, Bool, true, false, Option, some, List, [], ◌∷◌, Bytes, codes, bytes_eq,
  if◌then◌else◌,
}

abbrev pub Header : Type 0
Header = List (Bytes × Bytes)

unfoldable pub get : Header → Bytes → Bytes
unfolding bytes_eq
get [] name = []
get ((key, value) ∷ rest) name = if bytes_eq key name then value else get rest name

-- `Set`, where the code sets a header at all.
abbrev pub set_if : Bool → Bytes → Bytes → Header → Header
set_if true name value h = (name, value) ∷ h
set_if false name value h = h

abbrev pub header_kind : Bytes
header_kind = codes "Buff-Kind"

abbrev pub header_filename : Bytes
header_filename = codes "Buff-Filename"

abbrev pub header_executable : Bytes
header_executable = codes "Buff-Executable"

abbrev pub header_ttl : Bytes
header_ttl = codes "Buff-TTL"

abbrev pub header_keep : Bytes
header_keep = codes "Buff-Keep"

abbrev pub header_consume : Bytes
header_consume = codes "Buff-Consume"

abbrev pub header_if_match : Bytes
header_if_match = codes "If-Match"

abbrev pub header_wait : Bytes
header_wait = codes "Buff-Wait"

abbrev pub header_follow_next : Bytes
header_follow_next = codes "Buff-Follow-Next"

abbrev pub flag_on : Bytes
flag_on = codes "1"

-- The codecs of the standard library: `url.PathEscape` and its inverse, `Duration.String` and
-- `time.ParseDuration`.
pub record Codec : Type 0 where
  pub escape : Bytes → Bytes
  pub unescape : Bytes → Option Bytes
  pub show_duration : ℕ → Bytes
  pub read_duration : Bytes → Option ℕ

-- What each codec documents: it reads back what it wrote, and writes something.
pub record IsCodec (c : Codec) : Type 0 where
  pub unescape_escape : (s : Bytes) → c.unescape (c.escape s) ≡ some s
  pub escape_written : (s : Bytes) → s ≢ [] → c.escape s ≢ []
  pub read_show : (d : ℕ) → c.read_duration (c.show_duration d) ≡ some d
  pub show_written : (d : ℕ) → c.show_duration d ≢ []
