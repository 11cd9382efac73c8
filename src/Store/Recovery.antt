-- ===== src/Store/Recovery.antt =====
-- store/recovery.go: the name of a generation's directory, read back.
use buff.Common.{
  ℕ, zero, suc, ◌+◌, ◌-◌, ◌*◌, ◌/◌, ◌%◌, ◌<◌, ◌≡◌, ◌↔◌, refl, sym, ap, ◌∙◌, Bool, true, false, ◌&&◌,
  inl, inr, Option, none, some, [], ◌∷◌, ◌++◌, Bytes, arith, bytes_eq, bytes_eq_iff, bytes_eq_sound,
  subst, length, length-append, take-append_le, take-length, take, drop, word, leb, ◌==◌,
  if◌then◌else◌, Option-cases,
}
use buff.Store.GenId.{GenId, hex, hex_digit, id_string}

-- A hexadecimal character of either case, as `hex.Decode` reads it.
unfoldable pub hex_value : ℕ → Option ℕ
hex_value c =
    if leb b'0' c && leb c b'9'
    then some (c - b'0')
    else if leb b'a' c && leb c b'f'
    then some (c - b'a' + 10)
    else if leb b'A' c && leb c b'F'
    then some (c - b'A' + 10)
    else none

-- The number that the characters spell after the digits of `x`.
unfoldable pub hex_number : ℕ → Bytes → Option ℕ
unfolding hex_value
hex_number x [] = some x
hex_number x (c ∷ s) = elim (hex_value c) [ none ↦ none | some d ↦ hex_number (x * 16 + d) s ]

-- The two halves of a decoded name.
abbrev decoded : Option ℕ → Option ℕ → Option GenId
decoded (some p) (some t) = some (record { prefix = p; tail = t })
decoded (some p) none = none
decoded none t = none

abbrev canonical : Bytes → Option GenId → Option GenId
canonical s none = none
canonical s (some id) = if bytes_eq (id_string id) s then some id else none

-- `parseGenID`
unfoldable pub parse_gen_id : Bytes → Option GenId
unfolding hex_number id_string bytes_eq
parse_gen_id s =
    if length s == 32
    then canonical s (decoded (hex_number 0 (take 16 s)) (hex_number 0 (drop 16 s)))
    else none

hex_value-hex_digit : (d : ℕ) → d < 16 → hex_value (hex_digit d) ≡ some d
unfolding hex_value hex_digit
hex_value-hex_digit d h = ground arith

hex_number-cons :
    (x : ℕ) (b : ℕ) (s : Bytes) (a : ℕ)
    → hex_value b ≡ some a
    → hex_number x (b ∷ s) ≡ hex_number (x * 16 + a) s
unfolding hex_number
hex_number-cons x b s a g = rw (g, hex_number) refl

hex_number-refused : (x : ℕ) (b : ℕ) (s : Bytes) → hex_value b ≡ none → hex_number x (b ∷ s) ≡ none
unfolding hex_number
hex_number-refused x b s g = rw (g, hex_number) refl

hex_number-append :
    (x : ℕ) (s : Bytes) (c y d : ℕ)
    → hex_number x s ≡ some y
    → hex_value c ≡ some d
    → hex_number x (s ++ (c ∷ [])) ≡ some (y * 16 + d)
unfolding hex_number
hex_number-append x [] c y d e f = let q : x ≡ y = cc in rw (f, hex_number, q) refl
hex_number-append x (b ∷ s) c y d e f = elim (Option-cases (hex_value b)) [
  | inl g ↦ let q = hex_number-refused x b s g in cc
  | inr (a, g) ↦
      rw (g, hex_number)
        (hex_number-append (x * 16 + a) s c y d (sym (hex_number-cons x b s a g) ∙ e) f)
]

abbrev pow16 : ℕ → ℕ
pow16 zero = 1
pow16 (suc n) = 16 * pow16 n

hex_number-hex : (n x : ℕ) → x < pow16 n → hex_number 0 (hex n x) ≡ some x
unfolding hex hex_number
hex_number-hex zero x h = ap some (omega arith)
hex_number-hex (suc n) x h =
    let e =
      hex_number-append 0 (hex n (x / 16)) (hex_digit (x % 16)) (x / 16) (x % 16)
        (hex_number-hex n (x / 16) (omega arith)) (hex_value-hex_digit (x % 16) (omega arith)) in
    e ∙ ap some (omega arith)

pub length-hex : (n x : ℕ) → length (hex n x) ≡ n
unfolding hex
length-hex zero x = refl
length-hex (suc n) x =
    omega (arith, length-append (hex n (x / 16)) (hex_digit (x % 16) ∷ []), length-hex n (x / 16))

drop-append : (xs ys : Bytes) → drop (length xs) (xs ++ ys) ≡ ys
unfolding drop
drop-append [] ys = refl
drop-append (x ∷ xs) ys = drop-append xs ys

if_some :
    (c : Bool) (r : Option GenId) (id : GenId)
    → (if c then r else none) ≡ some id
    → (c ≡ true) × (r ≡ some id)
if_some true r id e = (refl, e)
if_some false r id e = cc

canonical_lem :
    (s : Bytes) (r : Option GenId) (id : GenId) → canonical s r ≡ some id → s ≡ id_string id
canonical_lem s none id e = cc
canonical_lem s (some d) id e =
    let (b, q) = if_some (bytes_eq (id_string d) s) (some d) id e in
    let same : d ≡ id = cc in sym (bytes_eq_sound (id_string d) s b) ∙ ap id_string same

pub parsed_canonical : (s : Bytes) (id : GenId) → parse_gen_id s ≡ some id → s ≡ id_string id
unfolding parse_gen_id
parsed_canonical s id e =
    let r = decoded (hex_number 0 (take 16 s)) (hex_number 0 (drop 16 s)) in
    canonical_lem s r id (if_some (length s == 32) (canonical s r) id e).1

parse_gen_id-append :
    (p t : Bytes) (id : GenId)
    → length p ≡ 16
    → length t ≡ 16
    → hex_number 0 p ≡ some id.prefix
    → hex_number 0 t ≡ some id.tail
    → id_string id ≡ p ++ t
    → parse_gen_id (p ++ t) ≡ some id
unfolding parse_gen_id
parse_gen_id-append p t id l m e f q =
    let c : (length (p ++ t) == 32) ≡ true = ground (arith, length-append p t, l, m) in
    let a : take 16 (p ++ t) ≡ p =
      take-append_le 16 p t (omega (arith, l)) ∙ subst (λ n. take n p ≡ p) l (take-length p) in
    let b : drop 16 (p ++ t) ≡ t = subst (λ n. drop n (p ++ t) ≡ t) l (drop-append p t) in
    let g : bytes_eq (id_string id) (p ++ t) ≡ true = (bytes_eq_iff (id_string id) (p ++ t)).1 q in
    rw (c, parse_gen_id, a, b, e, f, g) refl

-- A directory name parses to an id exactly when it is the name that the id was given, so recovery
-- takes every directory the store made for its own generation and no other directory for one.
pub parse_gen_id_iff :
    (s : Bytes) (id : GenId)
    → id.prefix < word
    → id.tail < word
    → (parse_gen_id s ≡ some id) ↔ (s ≡ id_string id)
unfolding id_string
parse_gen_id_iff s id h k = (
  λ e. parsed_canonical s id e,
  λ q. rw q (
      parse_gen_id-append (hex 16 id.prefix) (hex 16 id.tail) id (length-hex 16 id.prefix)
        (length-hex 16 id.tail) (hex_number-hex 16 id.prefix h) (hex_number-hex 16 id.tail k) refl),
)
