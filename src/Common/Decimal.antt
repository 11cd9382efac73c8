-- ===== src/Common/Decimal.antt =====
-- Decimal text of natural numbers, as `%d` and strconv.FormatInt write it.
use Prim.Native.Nat.{ℕ, zero, suc, ◌+◌, ◌-◌, ◌*◌, ◌/◌, ◌%◌, ◌≤◌, ◌<◌}
use mathlib.Core.Path.{◌≡◌, ap, ◌∙◌}
use mathlib.Core.Bool.{◌&&◌}
use mathlib.Core.List.{[], ◌∷◌, ◌++◌}
use mathlib.Core.Option.{Option, none, some}
use native.Mathlib.Omega.{arith}
use buff.Common.Tests.{Bytes, ltb, leb, if◌then◌else◌, if_elim}

-- The text of a number that `n` bounds.
unfoldable pub digits : ℕ → ℕ → Bytes
digits zero x = (b'0' + x % 10) ∷ []
digits (suc n) x =
    let rest = digits n (x / 10) in
    if ltb x 10 then (b'0' + x) ∷ [] else rest ++ (b'0' + x % 10) ∷ []

abbrev pub decimal : ℕ → Bytes
decimal x = digits x x

-- The number that the digits spell after those of `x`, if they are digits.
unfoldable pub read_digits : ℕ → Bytes → Option ℕ
read_digits x [] = some x
read_digits x (c ∷ s) =
    let rest = read_digits (x * 10 + (c - b'0')) s in
    if leb b'0' c && leb c b'9' then rest else none

read_digits-append :
    (x y d : ℕ) (s : Bytes)
    → read_digits x s ≡ some y
    → d < 10
    → read_digits x (s ++ (b'0' + d) ∷ []) ≡ some (y * 10 + d)
unfolding read_digits
read_digits-append x y d [] e h = ground arith
read_digits-append x y d (c ∷ s) e h =
    ground (arith, read_digits-append (x * 10 + (c - b'0')) y d s)

pub read_digits-digits : (n x : ℕ) → x ≤ n → read_digits 0 (digits n x) ≡ some x
unfolding digits read_digits
read_digits-digits zero x h = ground arith
read_digits-digits (suc n) x h =
    if_elim (λ s. read_digits 0 s ≡ some x) (ltb x 10) ((b'0' + x) ∷ [])
      (digits n (x / 10) ++ (b'0' + x % 10) ∷ []) (λ b. ground arith)
      (λ b.
        read_digits-append 0 (x / 10) (x % 10) (digits n (x / 10))
          (read_digits-digits n (x / 10) (omega arith)) (omega arith)
        ∙ ap some (omega arith))
