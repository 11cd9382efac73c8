-- ===== src/Clip/Name.antt =====
-- clip/name.go: the grammar of slot names and the check of remembered file names.
use buff.Common.{
  ℕ, zero, suc, ◌-◌, ◌≤◌, ◌<◌, ◌≡◌, refl, ◌≢◌, ◌↔◌, ◌⊎◌, Bool, true, false, not, ◌&&◌, ◌||◌, Option,
  none, some, [], ◌∷◌, arith, Bytes, codes, bytes_eq, bytes_eq_iff, length, ltb, leb, ◌==◌,
  if◌then◌else◌,
}
use mathlib.Core.List.{Memᴰ}
use buff.Clip.Errors.{Error, name_invalid, filename_invalid}

unfoldable pub is_alnum : ℕ → Bool
is_alnum c = (leb b'A' c && leb c b'Z') || (leb b'a' c && leb c b'z') || (leb b'0' c && leb c b'9')

unfoldable pub is_name_byte : ℕ → Bool
unfolding is_alnum
is_name_byte c = is_alnum c || c == b'.' || c == b'_' || c == b'-'

-- `[A-Za-z0-9._-]{0,n}$`
unfoldable pub name_tail : ℕ → Bytes → Bool
unfolding is_name_byte
name_tail n [] = true
name_tail zero (c ∷ s) = false
name_tail (suc n) (c ∷ s) = is_name_byte c && name_tail n s

-- `nameRe`
unfoldable pub name_matches : Bytes → Bool
unfolding is_alnum name_tail
name_matches [] = false
name_matches (c ∷ s) = is_alnum c && name_tail 127 s

unfoldable pub valid_name : Bytes → Option Error
unfolding name_matches
valid_name name = if name_matches name then none else some name_invalid

-- What the next byte of a UTF-8 sequence may be: how many continuation bytes are left, and the
-- range of the next one.
pub record Expect : Type 0 where
  pub left : ℕ
  pub low : ℕ
  pub high : ℕ
  pub legal : Bool

abbrev start_expect : Expect
start_expect = record { left = 0; low = 0x80; high = 0xbf; legal = true }

-- After a leading byte, the table of the standard library's package utf8.
leading : ℕ → Expect
leading c =
    if ltb c 0x80
    then start_expect
    else if ltb c 0xc2
    then record { left = 0; low = 0x80; high = 0xbf; legal = false }
    else if ltb c 0xe0
    then record { left = 1; low = 0x80; high = 0xbf; legal = true }
    else if c == 0xe0
    then record { left = 2; low = 0xa0; high = 0xbf; legal = true }
    else if c == 0xed
    then record { left = 2; low = 0x80; high = 0x9f; legal = true }
    else if ltb c 0xf0
    then record { left = 2; low = 0x80; high = 0xbf; legal = true }
    else if c == 0xf0
    then record { left = 3; low = 0x90; high = 0xbf; legal = true }
    else if ltb c 0xf4
    then record { left = 3; low = 0x80; high = 0xbf; legal = true }
    else if c == 0xf4
    then record { left = 3; low = 0x80; high = 0x8f; legal = true }
    else record { left = 0; low = 0x80; high = 0xbf; legal = false }

next_expect : Expect → ℕ → Expect
unfolding leading
next_expect e c =
    if e.left == 0
    then leading c
    else record { left = e.left - 1; low = 0x80; high = 0xbf; legal = leb e.low c && leb c e.high }

utf8_from : Expect → Bytes → Bool
unfolding next_expect
utf8_from e [] = e.left == 0
utf8_from e (c ∷ s) = (next_expect e c).legal && utf8_from (next_expect e c) s

-- `utf8.ValidString`
unfoldable pub utf8_valid : Bytes → Bool
unfolding utf8_from
utf8_valid s = utf8_from start_expect s

abbrev is_barred : ℕ → Bool
is_barred c = c == b'/' || c == 0x5c || ltb c 0x20 || c == 0x7f

-- The byte scan: true if no byte is a separator or a control.
scan_clean : Bytes → Bool
scan_clean [] = true
scan_clean (c ∷ s) = if is_barred c then false else scan_clean s

abbrev dot : Bytes
dot = codes "."

abbrev dot_dot : Bytes
dot_dot = codes ".."

unfoldable pub valid_filename : Bytes → Option Error
unfolding utf8_valid scan_clean
valid_filename name =
    if bytes_eq name []
      || ltb 255 (length name)
      || bytes_eq name dot
      || bytes_eq name dot_dot
      || not (utf8_valid name)
    then some filename_invalid
    else if scan_clean name
    then none
    else some filename_invalid

-- A slot name as the doc comment describes it.
pub record IsSlotName (name : Bytes) : Type 0 where
  pub nonempty : name ≢ []
  pub short : length name ≤ 128
  pub safe : valid_filename name ≡ none

name_tail_bound : (n : ℕ) (s : Bytes) → name_tail n s ≡ true → length s ≤ n
unfolding name_tail
name_tail_bound n [] h = omega arith
name_tail_bound zero (c ∷ s) h = ground arith
name_tail_bound (suc n) (c ∷ s) h = ground (arith, name_tail_bound n s)

name_tail_clean : (n : ℕ) (s : Bytes) → name_tail n s ≡ true → scan_clean s ≡ true
unfolding name_tail scan_clean
name_tail_clean n [] h = refl
name_tail_clean zero (c ∷ s) h = ground arith
name_tail_clean (suc n) (c ∷ s) h = ground (arith, name_tail_clean n s)

ascii_next : (c : ℕ) → c < 128 → next_expect start_expect c ≡ start_expect
unfolding next_expect
ascii_next c h = ground arith

name_byte_ascii : (c : ℕ) → is_name_byte c ≡ true → c < 128
unfolding is_name_byte
name_byte_ascii c h = ground arith

name_tail_utf8 : (n : ℕ) (s : Bytes) → name_tail n s ≡ true → utf8_from start_expect s ≡ true
unfolding name_tail utf8_from
name_tail_utf8 n [] h = refl
name_tail_utf8 zero (c ∷ s) h = ground arith
name_tail_utf8 (suc n) (c ∷ s) h =
    ground (arith, name_byte_ascii c, ascii_next c, name_tail_utf8 n s)

alnum_ascii : (c : ℕ) → is_alnum c ≡ true → c < 128
unfolding is_alnum
alnum_ascii c h = ground arith

-- A leading alphanumeric and a clean tail make a filename.
alnum_filename :
    (c : ℕ) (s : Bytes)
    → is_alnum c ≡ true
    → name_tail 127 s ≡ true
    → length s ≤ 127
    → scan_clean s ≡ true
    → utf8_from start_expect (c ∷ s) ≡ true
    → valid_filename (c ∷ s) ≡ none
unfolding valid_filename bytes_eq is_alnum
alnum_filename c s h t l k u = ground arith

utf8_from-cons :
    (c : ℕ) (s : Bytes)
    → c < 128
    → utf8_from start_expect s ≡ true
    → utf8_from start_expect (c ∷ s) ≡ true
unfolding utf8_from
utf8_from-cons c s h u = ground (arith, ascii_next c h)

pub utf8_valid-cons :
    (c : ℕ) (s : Bytes) → c < 128 → utf8_valid s ≡ true → utf8_valid (c ∷ s) ≡ true
unfolding utf8_valid
utf8_valid-cons c s h u = utf8_from-cons c s h u

-- Every slot name that `valid_name` accepts is nonempty, at most 128 bytes long, and a file name
-- that `valid_filename` accepts.
pub valid_name-IsSlotName : (name : Bytes) → valid_name name ≡ none → IsSlotName name
unfolding valid_name
valid_name-IsSlotName [] h = ground arith
valid_name-IsSlotName (c ∷ s) h =
    let a : is_alnum c ≡ true = ground arith in
    let t : name_tail 127 s ≡ true = ground arith in
    let l = name_tail_bound 127 s t in
    record {
      nonempty = λ e. cc;
      short = omega arith;
      safe =
          alnum_filename c s a t l (name_tail_clean 127 s t)
            (utf8_from-cons c s (alnum_ascii c a) (name_tail_utf8 127 s t));
    }

-- One path component, on POSIX and on Windows.
pub record IsComponent (name : Bytes) : Type 0 where
  pub nonempty : name ≢ []
  pub short : length name ≤ 255
  pub not_dot : name ≢ dot
  pub not_dot_dot : name ≢ dot_dot
  pub clean : (c : ℕ) → Memᴰ c name → (c ≢ b'/') × (c ≢ 0x5c) × (c ≢ 0x7f) × (0x20 ≤ c)
  pub text : utf8_valid name ≡ true

scan_clean_sound :
    (s : Bytes)
    → scan_clean s ≡ true
    → (c : ℕ) → Memᴰ c s
    → (c ≢ b'/') × (c ≢ 0x5c) × (c ≢ 0x7f) × (0x20 ≤ c)
unfolding scan_clean
scan_clean_sound [] h c m = elim m [ ]
scan_clean_sound (d ∷ s) h c (Memᴰ.head e) = ground arith
scan_clean_sound (d ∷ s) h c (Memᴰ.tail m) = scan_clean_sound s (ground arith) c m

scan_clean_complete :
    (s : Bytes)
    → ((c : ℕ) → Memᴰ c s → (c ≢ b'/') × (c ≢ 0x5c) × (c ≢ 0x7f) × (0x20 ≤ c))
    → scan_clean s ≡ true
unfolding scan_clean
scan_clean_complete [] h = refl
scan_clean_complete (c ∷ s) h =
    let rest = scan_clean_complete s (λ d m. h d (Memᴰ.tail m)) in
    let here = h c (Memᴰ.head refl) in ground arith

-- `valid_filename` accepts exactly the names that are one path component: neither empty, nor longer
-- than 255 bytes, nor "." or "..", valid UTF-8, and with no separator, control or DEL byte; and it
-- refuses all others with the filename sentinel.
pub valid_filename_iff :
    (name : Bytes)
    → ((valid_filename name ≡ none) ↔ IsComponent name)
      × ((valid_filename name ≡ none) ⊎ (valid_filename name ≡ some filename_invalid))
unfolding valid_filename
valid_filename_iff name = (
  (
    λ h. record {
      nonempty = ground (arith, bytes_eq_iff name []);
      short = ground arith;
      not_dot = ground (arith, bytes_eq_iff name dot);
      not_dot_dot = ground (arith, bytes_eq_iff name dot_dot);
      clean = scan_clean_sound name (ground arith);
      text = ground arith;
    },
    λ k. ground (
      arith,
      scan_clean_complete name k.clean,
      bytes_eq_iff name [],
      bytes_eq_iff name dot,
      bytes_eq_iff name dot_dot,
    ),
  ),
  ground arith,
)
