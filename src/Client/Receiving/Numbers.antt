-- ===== src/Client/Receiving/Numbers.antt =====
-- api/api.go (`itoa`) and client/meta.go (`atoi64`): a size that is written is read back.
use buff.Common.{
  ℕ, zero, suc, ◌+◌, ◌/◌, ◌%◌, ◌<◌, ◌≤◌, ◌≡◌, refl, sym, ap, ◌∙◌, some, [], ◌∷◌, ◌++◌, Bytes, arith,
  ltb, if_elim, digits, decimal, read_digits, read_digits-digits, int64_end, lt→ltb,
}
use buff.Api.Framing.{itoa}
use buff.Client.Meta.{atoi64}

-- A decimal begins with a digit.
digits-cons : (n x : ℕ) → (c : ℕ) × (s : Bytes) × (digits n x ≡ c ∷ s) × (b'0' ≤ c)
unfolding digits
digits-cons zero x = (b'0' + x % 10, [], refl, omega arith)
digits-cons (suc n) x =
    let (c, s, e, h) = digits-cons n (x / 10) in
    if_elim (λ r. (d : ℕ) × (t : Bytes) × (r ≡ d ∷ t) × (b'0' ≤ d)) (ltb x 10) ((b'0' + x) ∷ [])
      (digits n (x / 10) ++ (b'0' + x % 10) ∷ []) (λ b. (b'0' + x, [], refl, omega arith))
      (λ b. (c, s ++ (b'0' + x % 10) ∷ [], ap (λ r. r ++ (b'0' + x % 10) ∷ []) e, h))

atoi64_cons :
    (c : ℕ) (s : Bytes) (n : ℕ)
    → b'0' ≤ c
    → read_digits 0 (c ∷ s) ≡ some n
    → n < int64_end
    → atoi64 (c ∷ s) ≡ n
unfolding atoi64
atoi64_cons c s n h e l = ground (arith, e)

pub atoi64-itoa : (n : ℕ) → n < int64_end → atoi64 (itoa n) ≡ n
unfolding itoa
atoi64-itoa n l =
    let (c, s, e, h) = digits-cons n n in
    let q : itoa n ≡ decimal n = rw (lt→ltb n int64_end l) refl in
    ap atoi64 (q ∙ e)
    ∙ atoi64_cons c s n h (sym (ap (read_digits 0) e) ∙ read_digits-digits n n (omega arith)) l
