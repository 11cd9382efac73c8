-- ===== src/Cli/Scan/Values.antt =====
-- What the scan has checked of the values it took: the grammar meets no other tokens.
use buff.Common.{
  ℕ, ◌≡◌, refl, ◌≢◌, true, false, Option, none, some, ◌⊎◌, inl, inr, List, [], ◌∷◌, Bytes, bytes_eq,
  slt64, Bool-cases, Option-cases,
}
use buff.Cli.Flags.{
  OnSuccess, Flags, UsageError, FlagSpec, bool_flag, value_flag, flag_specs, find_spec, set_flag,
  set_ttl, set_output, set_if_match, split_flag, apply_spec, counted,
}

pub record HasValues (f : Flags) : Type 0 where
  pub ttl_unset : f.ttl_set ≡ false → f.ttl ≡ 0
  pub ttl_signed : slt64 f.ttl 0 ≡ false
  pub output_named : f.output_set ≡ true → f.output ≢ []
  pub if_match_named : f.if_match_set ≡ true → f.if_match ≢ []
  pub if_match_unset : f.if_match_set ≡ false → f.if_match ≡ []

abbrev Keeps : FlagSpec → Type 0
Keeps (bool_flag set) = (f : Flags) → HasValues f → HasValues (set f)
Keeps (value_flag set) = (f : Flags) (v : Bytes) → HasValues f → OnSuccess HasValues (set f v)

abbrev AllKeep : List (Bytes × FlagSpec) → Type 0
AllKeep [] = Unit {0}
AllKeep ((key, spec) ∷ rest) = Keeps spec × AllKeep rest

Keeps-output : Keeps (value_flag set_output)
unfolding set_output
Keeps-output f [] v = tt
Keeps-output f (c ∷ s) v = record {
  ttl_unset = v.ttl_unset;
  ttl_signed = v.ttl_signed;
  output_named = λ q n. cc;
  if_match_named = v.if_match_named;
  if_match_unset = v.if_match_unset;
}

Keeps-if_match : Keeps (value_flag set_if_match)
unfolding set_if_match
Keeps-if_match f [] v = tt
Keeps-if_match f (c ∷ s) v = record {
  ttl_unset = v.ttl_unset;
  ttl_signed = v.ttl_signed;
  output_named = v.output_named;
  if_match_named = λ q n. cc;
  if_match_unset = λ q. cc;
}

Keeps-ttl : (pd : Bytes → Option ℕ) → Keeps (value_flag (set_ttl pd))
unfolding set_ttl
Keeps-ttl pd f s v = elim (Option-cases (pd s)) [
  | inl p ↦ rw (p, set_ttl) tt
  | inr (d, p) ↦ elim (Bool-cases (slt64 d 0)) [
    | inl n ↦ rw (p, set_ttl, n, set_ttl) tt
    | inr n ↦
        rw (p, set_ttl, n, set_ttl)
          (record {
            ttl_unset = λ q. cc;
            ttl_signed = n;
            output_named = v.output_named;
            if_match_named = v.if_match_named;
            if_match_unset = v.if_match_unset;
          })
  ]
]

same_values :
    {f g : Flags}
    → HasValues f
    → (g.ttl ≡ f.ttl)
      × (g.ttl_set ≡ f.ttl_set)
      × (g.output ≡ f.output)
      × (g.output_set ≡ f.output_set)
      × (g.if_match ≡ f.if_match)
      × (g.if_match_set ≡ f.if_match_set)
    → HasValues g
same_values v (a, b, c, d, e, h) = record {
  ttl_unset = rw (a, b) v.ttl_unset;
  ttl_signed = rw a v.ttl_signed;
  output_named = rw (c, d) v.output_named;
  if_match_named = rw (e, h) v.if_match_named;
  if_match_unset = rw (e, h) v.if_match_unset;
}

infixr 4 ◌⊗◌
abbrev ◌⊗◌ : {A B : Type 0} → A → B → A × B
a ⊗ b = (a, b)

flag_specs-AllKeep : (pd : Bytes → Option ℕ) → AllKeep (flag_specs pd)
unfolding flag_specs
flag_specs-AllKeep pd =
    (λ f v. same_values v (refl, refl, refl, refl, refl, refl))
    ⊗ (λ f v. same_values v (refl, refl, refl, refl, refl, refl))
    ⊗ (λ f v. same_values v (refl, refl, refl, refl, refl, refl))
    ⊗ (λ f v. same_values v (refl, refl, refl, refl, refl, refl))
    ⊗ (λ f v. same_values v (refl, refl, refl, refl, refl, refl))
    ⊗ (λ f v. same_values v (refl, refl, refl, refl, refl, refl))
    ⊗ (λ f v. same_values v (refl, refl, refl, refl, refl, refl))
    ⊗ (λ f v. same_values v (refl, refl, refl, refl, refl, refl))
    ⊗ (λ f v. same_values v (refl, refl, refl, refl, refl, refl))
    ⊗ (λ f v. same_values v (refl, refl, refl, refl, refl, refl))
    ⊗ (λ f v. same_values v (refl, refl, refl, refl, refl, refl))
    ⊗ (λ f v. same_values v (refl, refl, refl, refl, refl, refl))
    ⊗ (λ f v. same_values v (refl, refl, refl, refl, refl, refl))
    ⊗ (λ f v. same_values v (refl, refl, refl, refl, refl, refl))
    ⊗ (λ f v. same_values v (refl, refl, refl, refl, refl, refl))
    ⊗ (λ f v. same_values v (refl, refl, refl, refl, refl, refl))
    ⊗ (λ f v. same_values v (refl, refl, refl, refl, refl, refl))
    ⊗ Keeps-output
    ⊗ Keeps-output
    ⊗ (λ f s v. same_values v (refl, refl, refl, refl, refl, refl))
    ⊗ Keeps-ttl pd
    ⊗ Keeps-if_match
    ⊗ tt

abbrev KeepsIf : Option FlagSpec → Type 0
KeepsIf none = Unit {0}
KeepsIf (some spec) = Keeps spec

find_spec-Keeps :
    (name : Bytes) (specs : List (Bytes × FlagSpec))
    → AllKeep specs
    → KeepsIf (find_spec name specs)
unfolding find_spec
find_spec-Keeps name [] a = tt
find_spec-Keeps name ((key, spec) ∷ rest) (k, a) = elim (Bool-cases (bytes_eq key name)) [
  | inl e ↦ rw (e, find_spec) k
  | inr e ↦ rw (e, find_spec) (find_spec-Keeps name rest a)
]

abbrev pub FirstHas : (Flags × ℕ) ⊎ UsageError → Type 0
FirstHas r = OnSuccess (λ p. HasValues p.0) r

counted-HasValues :
    (n : ℕ) (r : Flags ⊎ UsageError) → OnSuccess HasValues r → FirstHas (counted n r)
counted-HasValues n (inl f) v = v
counted-HasValues n (inr e) v = tt

apply_spec-HasValues :
    (spec : Option FlagSpec) (f : Flags) (a name : Bytes) (inline : Option Bytes)
    → (rest : List Bytes) → KeepsIf spec
    → HasValues f
    → FirstHas (apply_spec spec f a name inline rest)
apply_spec-HasValues none f a name inline rest k v = tt
apply_spec-HasValues (some (bool_flag set)) f a name (some i) rest k v = tt
apply_spec-HasValues (some (bool_flag set)) f a name none rest k v = k f v
apply_spec-HasValues (some (value_flag set)) f a name (some i) rest k v =
    counted-HasValues 0 (set f i) (k f i v)
apply_spec-HasValues (some (value_flag set)) f a name none [] k v = tt
apply_spec-HasValues (some (value_flag set)) f a name none (x ∷ rest) k v =
    counted-HasValues 1 (set f x) (k f x v)

pub set_flag-HasValues :
    (pd : Bytes → Option ℕ) (f : Flags) (a : Bytes) (rest : List Bytes)
    → HasValues f
    → FirstHas (set_flag pd f a rest)
unfolding set_flag
set_flag-HasValues pd f a rest v =
    let name = (split_flag a).0 in
    apply_spec-HasValues (find_spec name (flag_specs pd)) f a name (split_flag a).1 rest
      (find_spec-Keeps name (flag_specs pd) (flag_specs-AllKeep pd)) v
