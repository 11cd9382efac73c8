-- ===== src/Cli/Scan/Named.antt =====
-- The scanned tokens: every slot has a name, and every value was checked.
use buff.Common.{
  ℕ, zero, suc, refl, subst, ◌≢◌, ◌==◌, Bool, true, false, Option, ◌⊎◌, inl, inr, List, [], ◌∷◌,
  ◌++◌, Bytes, codes, bytes_eq, Bool-cases, Sum-cases, length, ltb, ◌&&◌,
}
use buff.Cli.Flags.{OnSuccess, Flags, UsageError, set_flag}
use buff.Cli.Scan.{
  Tokens, no_tokens, add_positional, scan_one, scan_from, scan, positional, flagged, starts_with,
}
use buff.Cli.Scan.Values.{HasValues, FirstHas, set_flag-HasValues}

-- No slot without a name.
abbrev pub AllNamed : List Bytes → Type 0
AllNamed [] = Unit {0}
AllNamed (slot ∷ rest) = (slot ≢ []) × AllNamed rest

AllNamed-snoc :
    (slots : List Bytes) (slot : Bytes)
    → AllNamed slots
    → slot ≢ []
    → AllNamed (slots ++ (slot ∷ []))
AllNamed-snoc [] slot a n = (n, tt)
AllNamed-snoc (s ∷ rest) slot (m, a) n = (m, AllNamed-snoc rest slot a n)

pub record IsScanned (t : Tokens) : Type 0 where
  pub named : AllNamed t.slots
  pub values : HasValues t.flags

add_positional-IsScanned :
    (t : Tokens) (a : Bytes) → IsScanned t → OnSuccess IsScanned (add_positional t a)
unfolding add_positional
add_positional-IsScanned t [] v = record { named = v.named; values = v.values }
add_positional-IsScanned t (c ∷ []) v = elim (Bool-cases (c == 64)) [
  | inl e ↦ rw (e, add_positional) tt
  | inr e ↦ rw (e, add_positional) (record { named = v.named; values = v.values })
]
add_positional-IsScanned t (c ∷ d ∷ s) v = elim (Bool-cases (c == 64)) [
  | inl e ↦
      rw (e, add_positional)
        (record { named = AllNamed-snoc t.slots (d ∷ s) v.named (λ q. cc); values = v.values })
  | inr e ↦ rw (e, add_positional) (record { named = v.named; values = v.values })
]

abbrev StepScanned : (Tokens × Bool × ℕ) ⊎ UsageError → Type 0
StepScanned r = OnSuccess (λ p. IsScanned p.0) r

positional-IsScanned :
    (ended : Bool) (r : Tokens ⊎ UsageError)
    → OnSuccess IsScanned r
    → StepScanned (positional ended r)
positional-IsScanned ended (inl t) v = v
positional-IsScanned ended (inr e) v = tt

flagged-IsScanned :
    (t : Tokens) (r : (Flags × ℕ) ⊎ UsageError)
    → IsScanned t
    → FirstHas r
    → StepScanned (flagged t r)
flagged-IsScanned t (inl (f, n)) v h = record { named = v.named; values = h }
flagged-IsScanned t (inr e) v h = tt

scan_one-IsScanned :
    (pd : Bytes → Option ℕ) (t : Tokens) (ended : Bool) (a : Bytes) (rest : List Bytes)
    → IsScanned t
    → StepScanned (scan_one pd t ended a rest)
unfolding scan_one
scan_one-IsScanned pd t true a rest v =
    positional-IsScanned true (add_positional t a) (add_positional-IsScanned t a v)
scan_one-IsScanned pd t false a rest v = elim (Bool-cases (bytes_eq a (codes "--"))) [
  | inl e ↦ rw (e, scan_one) v
  | inr e ↦ elim (Bool-cases (ltb 1 (length a) && starts_with 45 a)) [
    | inl d ↦
        rw (e, scan_one, d, scan_one)
          (flagged-IsScanned t (set_flag pd t.flags a rest) v
            (set_flag-HasValues pd t.flags a rest v.values))
    | inr d ↦
        rw (e, scan_one, d, scan_one)
          (positional-IsScanned false (add_positional t a) (add_positional-IsScanned t a v))
  ]
]

scan_from-IsScanned :
    (pd : Bytes → Option ℕ) (t : Tokens) (ended : Bool) (skip : ℕ) (args : List Bytes)
    → IsScanned t
    → OnSuccess IsScanned (scan_from pd t ended skip args)
unfolding scan_from
scan_from-IsScanned pd t ended skip [] v = v
scan_from-IsScanned pd t ended (suc skip) (a ∷ rest) v = scan_from-IsScanned pd t ended skip rest v
scan_from-IsScanned pd t ended zero (a ∷ rest) v =
    let w = scan_one-IsScanned pd t ended a rest v in
    elim (Sum-cases (scan_one pd t ended a rest)) [
      | inl ((t', ended', skip), e) ↦
          rw (e, scan_from) (scan_from-IsScanned pd t' ended' skip rest (subst StepScanned e w))
      | inr (x, e) ↦ rw (e, scan_from) tt
    ]

pub scan-IsScanned :
    (pd : Bytes → Option ℕ) (args : List Bytes) → OnSuccess IsScanned (scan pd args)
unfolding scan
scan-IsScanned pd args = scan_from-IsScanned pd no_tokens false 0 args (record {
  named = tt;
  values = record {
    ttl_unset = λ q. refl;
    ttl_signed = refl;
    output_named = λ q. cc;
    if_match_named = λ q. cc;
    if_match_unset = λ q. refl;
  };
})
