-- ===== src/Store/Scan/Directory/Picking.antt =====
-- store/recovery.go (`quarantine`): the loop that looks for a free name ends, and finds one.
use buff.Common.{
  read_digits, read_digits-digits, decimal, ℕ, zero, suc, ◌+◌, ◌<◌, ◌≤◌, ◌≡◌, ◌≢◌, refl, subst, sym,
  ap, ◌∙◌, inl, inr, false, none, some, [], ◌∷◌, ◌++◌, Bytes, arith, bytes_eq, bytes_eq_sound,
  length, length-append, if_elim, if◌then◌else◌, Option-cases, Bool-cases,
}
use buff.Store.Scan.Directory.{Dir, lookup, erase, target, pick}

some_inj : (i j : ℕ) → some i ≡ some j → i ≡ j
some_inj i j e = cc

decimal_inj : (i j : ℕ) → decimal i ≡ decimal j → i ≡ j
decimal_inj i j e = some_inj i j (
    sym (read_digits-digits i i (omega arith))
    ∙ ap (read_digits 0) e
    ∙ read_digits-digits j j (omega arith))

cons_inj : (c : ℕ) (s t : Bytes) → c ∷ s ≡ c ∷ t → s ≡ t
cons_inj c s t e = cc

append_cancel : (s t u : Bytes) → s ++ t ≡ s ++ u → t ≡ u
append_cancel [] t u e = e
append_cancel (c ∷ s) t u e = append_cancel s t u (cons_inj c (s ++ t) (s ++ u) e)

longer : (s t : Bytes) → s ≢ s ++ b'.' ∷ t
longer s t e = omega (arith, ap length e, length-append s (b'.' ∷ t))

target_inj : (base : Bytes) (i j : ℕ) → target base i ≡ target base j → i ≡ j
unfolding target
target_inj base zero zero e = refl
target_inj base zero (suc j) e = absurd (longer base (decimal (suc j)) e)
target_inj base (suc i) zero e = absurd (longer base (decimal (suc i)) (sym e))
target_inj base (suc i) (suc j) e = decimal_inj (suc i) (suc j) (
    cons_inj b'.' (decimal (suc i)) (decimal (suc j))
      (append_cancel base (b'.' ∷ decimal (suc i)) (b'.' ∷ decimal (suc j)) e))

target_differs : (base : Bytes) (i j : ℕ) → i < j → bytes_eq (target base i) (target base j) ≡ false
target_differs base i j l = elim (Bool-cases (bytes_eq (target base i) (target base j))) [
  | inr b ↦ b
  | inl b ↦
      absurd (omega (arith, target_inj base i j (bytes_eq_sound (target base i) (target base j) b)))
]

-- The names from index `i` on that the directory has, and at most `n` of them.
record Bounded (dir rest : Dir) (base : Bytes) (i n : ℕ) : Type 0 where
  within : (j : ℕ) → i ≤ j → lookup rest (target base j) ≡ lookup dir (target base j)
  few : length rest ≤ n

pub lookup-erase_ne :
    (dir : Dir) (k name : Bytes)
    → bytes_eq k name ≡ false
    → lookup (erase dir k) name ≡ lookup dir name
unfolding lookup erase
lookup-erase_ne [] k name b = refl
lookup-erase_ne ((j, x) ∷ dir) k name b = elim (Bool-cases (bytes_eq j k)) [
  | inl c ↦
      let d : bytes_eq j name ≡ false =
        subst (λ n. bytes_eq n name ≡ false) (sym (bytes_eq_sound j k c)) b in
      rw (c, erase, d, lookup) (lookup-erase_ne dir k name b)
  | inr c ↦
      rw (c, erase, lookup)
        (ap (λ o. if bytes_eq j name then some x else o) (lookup-erase_ne dir k name b))
]

erase_shorter : (dir : Dir) (k : Bytes) → length (erase dir k) ≤ length dir
unfolding erase
erase_shorter [] k = omega arith
erase_shorter ((j, x) ∷ dir) k =
    if_elim (λ r. length r ≤ suc (length dir)) (bytes_eq j k) (erase dir k) ((j, x) ∷ erase dir k)
      (λ b. omega (arith, erase_shorter dir k)) (λ b. omega (arith, erase_shorter dir k))

erase_found : (dir : Dir) (k : Bytes) → lookup dir k ≢ none → length (erase dir k) < length dir
unfolding lookup erase
erase_found [] k n = absurd (n refl)
erase_found ((j, x) ∷ dir) k n = elim (Bool-cases (bytes_eq j k)) [
  | inl b ↦ rw (b, erase) (omega (arith, erase_shorter dir k))
  | inr b ↦ rw (b, erase) (omega (arith, erase_found dir k (λ e. n (rw (b, lookup) e))))
]

step-Bounded :
    (dir rest : Dir) (base : Bytes) (i n : ℕ)
    → Bounded dir rest base i (suc n)
    → lookup dir (target base i) ≢ none
    → Bounded dir (erase rest (target base i)) base (i + 1) n
step-Bounded dir rest base i n w p = record {
  within = λ j l.
      lookup-erase_ne rest (target base i) (target base j) (target_differs base i j (omega arith))
      ∙ w.within j (omega arith);
  few =
      let q = erase_found rest (target base i) (λ e. p (sym (w.within i (omega arith)) ∙ e)) in
      omega (arith, q, w.few);
}

lookup_nothing : (dir : Dir) (k : Bytes) → length dir ≤ 0 → lookup dir k ≡ none
unfolding lookup
lookup_nothing [] k l = refl
lookup_nothing ((j, x) ∷ dir) k l = absurd (omega arith)

pick-Bounded :
    (n : ℕ) (dir rest : Dir) (base : Bytes) (i : ℕ)
    → Bounded dir rest base i n
    → lookup dir (pick n none dir base i) ≡ none
unfolding pick
pick-Bounded zero dir rest base i w =
    sym (w.within i (omega arith)) ∙ lookup_nothing rest (target base i) w.few
pick-Bounded (suc n) dir rest base i w = elim (Option-cases (lookup dir (target base i))) [
  | inl e ↦ rw (e, pick) e
  | inr (x, e) ↦
      rw (e, pick)
        (pick-Bounded n dir (erase rest (target base i)) base (i + 1)
          (step-Bounded dir rest base i n w (λ z. let y = sym e ∙ z in cc)))
]

-- The loop that looks for a free name under quarantine/ ends: as many tries as that directory has
-- entries are enough for it to reach a name that no entry has.
pub pick_free : (dir : Dir) (base : Bytes) → lookup dir (pick (length dir) none dir base 0) ≡ none
pick_free dir base =
    pick-Bounded (length dir) dir dir base 0 (record { within = λ j l. refl; few = omega arith })
