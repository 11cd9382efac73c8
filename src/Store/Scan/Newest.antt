-- ===== src/Store/Scan/Newest.antt =====
-- store/recovery.go (`scan`): the contest of the candidates of one name.
use mathlib.Core.List.{Memᴰ}
use mathlib.Core.List.Memᴰ.{head, tail}
use buff.Common.{◌≡◌, refl, sym, subst, inl, inr, true, false, List, [], ◌∷◌, arith, Bool-cases}
use buff.Store.GenId.{GenId, is_after}
use buff.Store.Scan.Classify.{Candidate}
use buff.Store.Scan.ByName.{newest}

-- No candidate of these sorts after this one.
abbrev pub IsNewest : Candidate → List Candidate → Type 0
IsNewest k cs = (c : Candidate) → Memᴰ c cs → is_after c.id k.id ≡ false

after_trans : (c k r : GenId) → is_after c k ≡ true → is_after c r ≡ false → is_after k r ≡ false
unfolding is_after
after_trans c k r a b = ground arith

not_after_trans :
    (c k r : GenId) → is_after c k ≡ false → is_after k r ≡ false → is_after c r ≡ false
unfolding is_after
not_after_trans c k r a b = ground arith

after_self : (k : GenId) → is_after k k ≡ false
unfolding is_after
after_self k = ground arith

IsNewest-wins :
    (k c r : Candidate) (cs : List Candidate)
    → is_after c.id k.id ≡ true
    → IsNewest r (c ∷ cs)
    → IsNewest r (k ∷ c ∷ cs)
IsNewest-wins k c r cs b n d (head e) =
    subst (λ x. is_after x.id r.id ≡ false) (sym e) (after_trans c.id k.id r.id b (n c (head refl)))
IsNewest-wins k c r cs b n d (tail m) = n d m

IsNewest-loses :
    (k c r : Candidate) (cs : List Candidate)
    → is_after c.id k.id ≡ false
    → IsNewest r (k ∷ cs)
    → IsNewest r (k ∷ c ∷ cs)
IsNewest-loses k c r cs b n d (head e) = n d (head e)
IsNewest-loses k c r cs b n d (tail (head e)) =
    subst (λ x. is_after x.id r.id ≡ false) (sym e)
      (not_after_trans c.id k.id r.id b (n k (head refl)))
IsNewest-loses k c r cs b n d (tail (tail m)) = n d (tail m)

second : {k c r : Candidate} {cs : List Candidate} → Memᴰ r (k ∷ cs) → Memᴰ r (k ∷ c ∷ cs)
second (head e) = head e
second (tail m) = tail (tail m)

-- The winner is one of the candidates, and none sorts after it.
pub newest_lem :
    (k : Candidate) (cs : List Candidate)
    → (Memᴰ (newest k cs) (k ∷ cs)) × IsNewest (newest k cs) (k ∷ cs)
unfolding newest
newest_lem k [] =
    (head refl, λ c m. elim m [ head e ↦ rw e (after_self k.id) | tail n ↦ elim n [ ] ])
newest_lem k (c ∷ cs) = elim (Bool-cases (is_after c.id k.id)) [
  | inl b ↦
      let (m, n) = newest_lem c cs in
      rw (b, newest) (tail m, IsNewest-wins k c (newest c cs) cs b n)
  | inr b ↦
      let (m, n) = newest_lem k cs in
      rw (b, newest) (second m, IsNewest-loses k c (newest k cs) cs b n)
]
