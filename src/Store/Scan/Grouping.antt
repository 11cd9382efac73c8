-- ===== src/Store/Scan/Grouping.antt =====
-- store/recovery.go (`scan`): the map from a name to its candidates.
use mathlib.Core.List.{Memᴰ}
use mathlib.Core.List.Memᴰ.{head, tail}
use buff.Common.{
  ◌≡◌, refl, sym, ap, subst, ◌∙◌, ◌⊎◌, inl, inr, List, [], ◌∷◌, ◌++◌, Bytes, bytes_eq, bytes_eq_iff,
  bytes_eq_sound, Bool-cases, map,
}
use buff.Store.Scan.Classify.{Candidate}
use buff.Store.Scan.ByName.{Groups, add_to_group}

abbrev pub Group : Type 0
Group = Bytes × Candidate × List Candidate

abbrev pub members : Group → List Candidate
members (name, first, rest) = first ∷ rest

-- No two of the names are equal.
abbrev pub Distinct : List Bytes → Type 0
Distinct [] = Unit
Distinct (n ∷ names) = (¬ Memᴰ n names) × Distinct names

-- The groups are exactly the candidates, by their names.
pub record IsGrouped (cs : List Candidate) (groups : Groups) : Type 0 where
  pub sound :
      (g : Group) (c : Candidate)
      → Memᴰ g groups
      → Memᴰ c (members g)
      → Memᴰ c cs × (c.mf.name ≡ g.0)
  pub complete : (c : Candidate) → Memᴰ c cs → (g : Group) × Memᴰ g groups × Memᴰ c (members g)
  pub distinct : Distinct (map (λ g. g.0) groups)

snoc-Memᴰ : {d c : Candidate} {cs : List Candidate} → Memᴰ d (cs ++ c ∷ []) → (d ≡ c) ⊎ Memᴰ d cs
snoc-Memᴰ {cs = []} (head e) = inl e
snoc-Memᴰ {cs = []} (tail m) = elim m [ ]
snoc-Memᴰ {cs = b ∷ cs} (head e) = inr (head e)
snoc-Memᴰ {cs = b ∷ cs} (tail m) = elim (snoc-Memᴰ {cs = cs} m) [
  | inl e ↦ inl e
  | inr n ↦ inr (tail n)
]

Memᴰ-snoc : {c : Candidate} (cs : List Candidate) → Memᴰ c (cs ++ c ∷ [])
Memᴰ-snoc [] = head refl
Memᴰ-snoc (b ∷ cs) = tail (Memᴰ-snoc cs)

Memᴰ-append : (d c : Candidate) (cs : List Candidate) → Memᴰ d cs → Memᴰ d (cs ++ c ∷ [])
Memᴰ-append d c [] m = elim m [ ]
Memᴰ-append d c (b ∷ cs) (head e) = head e
Memᴰ-append d c (b ∷ cs) (tail m) = tail (Memᴰ-append d c cs m)

-- Where a member of a group came from.
abbrev Origin : Candidate → Groups → Group → Candidate → Type 0
Origin c groups g d =
    ((d ≡ c) × (c.mf.name ≡ g.0)) ⊎ ((h : Group) × Memᴰ h groups × (h.0 ≡ g.0) × Memᴰ d (members h))

joined_sound :
    (c : Candidate) (name : Bytes) (first : Candidate) (rest : List Candidate) (groups : Groups)
    (g : Group) (d : Candidate)
    → name ≡ c.mf.name
    → g ≡ (name, first, rest ++ c ∷ [])
    → Memᴰ d (members g)
    → Origin c ((name, first, rest) ∷ groups) g d
joined_sound c name first rest groups g d same e m =
    let m' : Memᴰ d ((first ∷ rest) ++ c ∷ []) = subst (λ x. Memᴰ d (members x)) e m in
    let here : name ≡ g.0 = sym (ap (λ (x : Group). x.0) e) in
    elim (snoc-Memᴰ {cs = first ∷ rest} m') [
      | inl q ↦ inl (q, sym same ∙ here)
      | inr n ↦ inr ((name, first, rest), head refl, here, n)
    ]

later-Origin :
    (c : Candidate) (x : Group) (groups : Groups) (g : Group) (d : Candidate)
    → Origin c groups g d
    → Origin c (x ∷ groups) g d
later-Origin c x groups g d (inl q) = inl q
later-Origin c x groups g d (inr (h, n, e, m)) = inr (h, tail n, e, m)

added_sound :
    (c : Candidate) (groups : Groups) (g : Group) (d : Candidate)
    → Memᴰ g (add_to_group c groups)
    → Memᴰ d (members g)
    → Origin c groups g d
unfolding add_to_group
added_sound c [] g d (head e) m = elim (subst (λ x. Memᴰ d (members x)) e m) [
  | head q ↦ inl (q, sym (ap (λ (x : Group). x.0) e))
  | tail n ↦ elim n [ ]
]
added_sound c [] g d (tail n) m = elim n [ ]
added_sound c ((name, first, rest) ∷ groups) g d n m = elim (Bool-cases (bytes_eq name c.mf.name)) [
  | inl b ↦
      let q : add_to_group c ((name, first, rest) ∷ groups)
          ≡ (name, first, rest ++ c ∷ []) ∷ groups =
        rw b refl in
      elim (subst (Memᴰ g) q n) [
        | head e ↦ joined_sound c name first rest groups g d (bytes_eq_sound name c.mf.name b) e m
        | tail l ↦ inr (g, tail l, refl, m)
      ]
  | inr b ↦
      let q : add_to_group c ((name, first, rest) ∷ groups)
          ≡ (name, first, rest) ∷ add_to_group c groups =
        rw b refl in
      elim (subst (Memᴰ g) q n) [
        | head e ↦ inr (g, head e, refl, m)
        | tail l ↦ later-Origin c (name, first, rest) groups g d (added_sound c groups g d l m)
      ]
]

-- The group of a candidate after it was added.
abbrev Grown : Candidate → Groups → Candidate → Type 0
Grown c groups d = (g : Group) × Memᴰ g (add_to_group c groups) × Memᴰ d (members g)

added_new : (c : Candidate) (groups : Groups) → Grown c groups c
unfolding add_to_group
added_new c [] = ((c.mf.name, c, []), head refl, head refl)
added_new c ((name, first, rest) ∷ groups) = elim (Bool-cases (bytes_eq name c.mf.name)) [
  | inl b ↦ rw (b, add_to_group) ((name, first, rest ++ c ∷ []), head refl, tail (Memᴰ-snoc rest))
  | inr b ↦ let (g, n, m) = added_new c groups in rw (b, add_to_group) (g, tail n, m)
]

added_old :
    (c : Candidate) (groups : Groups) (g : Group) (d : Candidate)
    → Memᴰ g groups
    → Memᴰ d (members g)
    → Grown c groups d
unfolding add_to_group
added_old c [] g d n m = elim n [ ]
added_old c ((name, first, rest) ∷ groups) g d n m = elim (Bool-cases (bytes_eq name c.mf.name)) [
  | inl b ↦ elim n [
    | head e ↦
        let m' : Memᴰ d (first ∷ rest) = subst (λ x. Memᴰ d (members x)) e m in
        rw (b, add_to_group)
          ((name, first, rest ++ c ∷ []), head refl, Memᴰ-append d c (first ∷ rest) m')
    | tail l ↦ rw (b, add_to_group) (g, tail l, m)
  ]
  | inr b ↦ elim n [
    | head e ↦ rw (b, add_to_group) (g, head e, m)
    | tail l ↦ let (h, k, p) = added_old c groups g d l m in rw (b, add_to_group) (h, tail k, p)
  ]
]

abbrev pub names : Groups → List Bytes
names groups = map (λ (g : Group). g.0) groups

added_names :
    (c : Candidate) (groups : Groups) (n : Bytes)
    → Memᴰ n (names (add_to_group c groups))
    → (n ≡ c.mf.name) ⊎ Memᴰ n (names groups)
unfolding add_to_group
added_names c [] n (head e) = inl e
added_names c [] n (tail m) = elim m [ ]
added_names c ((name, first, rest) ∷ groups) n m = elim (Bool-cases (bytes_eq name c.mf.name)) [
  | inl b ↦
      let q : names (add_to_group c ((name, first, rest) ∷ groups)) ≡ name ∷ names groups =
        rw b refl in
      inr (subst (Memᴰ n) q m)
  | inr b ↦
      let q : names (add_to_group c ((name, first, rest) ∷ groups))
          ≡ name ∷ names (add_to_group c groups) =
        rw b refl in
      elim (subst (Memᴰ n) q m) [
        | head e ↦ inr (head e)
        | tail l ↦ elim (added_names c groups n l) [ inl e ↦ inl e | inr k ↦ inr (tail k) ]
      ]
]

added-Distinct :
    (c : Candidate) (groups : Groups)
    → Distinct (names groups)
    → Distinct (names (add_to_group c groups))
unfolding add_to_group
added-Distinct c [] d = (λ m. elim m [ ], d)
added-Distinct c ((name, first, rest) ∷ groups) (f, d) =
    elim (Bool-cases (bytes_eq name c.mf.name)) [
      | inl b ↦ rw (b, add_to_group) (f, d)
      | inr b ↦
          rw (b, add_to_group)
            (
              λ m. elim (added_names c groups name m) [
                | inl e ↦ let z = (bytes_eq_iff name c.mf.name).1 e in cc
                | inr l ↦ f l
              ],
              added-Distinct c groups d,
            )
    ]

pub add_to_group-IsGrouped :
    (c : Candidate) (cs : List Candidate) (groups : Groups)
    → IsGrouped cs groups
    → IsGrouped (c ∷ cs) (add_to_group c groups)
add_to_group-IsGrouped c cs groups w = record {
  sound = λ g d n m. elim (added_sound c groups g d n m) [
    | inl (e, q) ↦ (head e, ap (λ x. x.mf.name) e ∙ q)
    | inr (h, k, e, p) ↦ let (a, b) = w.sound h d k p in (tail a, b ∙ e)
  ];
  complete = λ d m. elim m [
    | head e ↦ subst (Grown c groups) (sym e) (added_new c groups)
    | tail l ↦ let (g, n, p) = w.complete d l in added_old c groups g d n p
  ];
  distinct = added-Distinct c groups w.distinct;
}

name_Memᴰ : {g : Group} {groups : Groups} → Memᴰ g groups → Memᴰ g.0 (names groups)
name_Memᴰ {groups = []} m = elim m [ ]
name_Memᴰ {groups = h ∷ groups} (head e) = head (ap (λ (x : Group). x.0) e)
name_Memᴰ {groups = h ∷ groups} (tail m) = tail (name_Memᴰ {groups = groups} m)

pub Distinct-group :
    {g h : Group} {groups : Groups}
    → Distinct (names groups)
    → Memᴰ g groups
    → Memᴰ h groups
    → g.0 ≡ h.0
    → g ≡ h
Distinct-group {groups = []} d m n e = elim m [ ]
Distinct-group {groups = x ∷ groups} (f, d) (head p) (head q) e = p ∙ sym q
Distinct-group {groups = x ∷ groups} (f, d) (head p) (tail n) e =
    absurd
      (f (subst (λ k. Memᴰ k (names groups)) (sym e ∙ ap (λ (y : Group). y.0) p) (name_Memᴰ n)))
Distinct-group {groups = x ∷ groups} (f, d) (tail m) (head q) e =
    absurd (f (subst (λ k. Memᴰ k (names groups)) (e ∙ ap (λ (y : Group). y.0) q) (name_Memᴰ m)))
Distinct-group {groups = x ∷ groups} (f, d) (tail m) (tail n) e = Distinct-group d m n e
