-- ===== src/Cli/Scan.antt =====
-- cli/parse.go: the lexical pass over the arguments.
pub mod Values
pub mod Named
use buff.Common.{
  ℕ, zero, suc, ◌==◌, ◌<◌, Bool, true, false, ◌&&◌, Option, ◌⊎◌, inl, inr, List, [], ◌∷◌, ◌++◌,
  Bytes, codes, bytes_eq, length, ltb, if◌then◌else◌,
}
use buff.Cli.Flags.{Flags, no_flags, UsageError, nameless_slot, set_flag}

pub record Tokens : Type 0 where
  pub slots : List Bytes
  pub paths : List Bytes
  pub flags : Flags

abbrev pub no_tokens : Tokens
no_tokens = record { slots = []; paths = []; flags = no_flags }

abbrev pub starts_with : ℕ → Bytes → Bool
starts_with c [] = false
starts_with c (d ∷ s) = d == c

-- `addPositional`: "@" is 64.
unfoldable pub add_positional : Tokens → Bytes → Tokens ⊎ UsageError
add_positional t [] = inl (record t { paths = t.paths ++ ([] ∷ []) })
add_positional t (c ∷ name) =
    if c == 64
    then (elim name [
      | [] ↦ inr nameless_slot
      | d ∷ s ↦ inl (record t { slots = t.slots ++ ((d ∷ s) ∷ []) })
    ])
    else inl (record t { paths = t.paths ++ ((c ∷ name) ∷ []) })

-- What one argument does: the tokens, whether flags have ended, and how many arguments to skip.
abbrev pub positional : Bool → Tokens ⊎ UsageError → (Tokens × Bool × ℕ) ⊎ UsageError
positional ended (inl t) = inl (t, ended, 0)
positional ended (inr e) = inr e

abbrev pub flagged : Tokens → (Flags × ℕ) ⊎ UsageError → (Tokens × Bool × ℕ) ⊎ UsageError
flagged t (inl (f, n)) = inl (record t { flags = f }, false, n)
flagged t (inr e) = inr e

-- One turn of the loop of `scan`: "-" is 45.
unfoldable pub scan_one :
    (Bytes → Option ℕ) → Tokens → Bool → Bytes → List Bytes → (Tokens × Bool × ℕ) ⊎ UsageError
unfolding add_positional set_flag bytes_eq
scan_one parse_duration t true a rest = positional true (add_positional t a)
scan_one parse_duration t false a rest =
    if bytes_eq a (codes "--")
    then inl (t, true, 0)
    else if ltb 1 (length a) && starts_with 45 a
    then flagged t (set_flag parse_duration t.flags a rest)
    else positional false (add_positional t a)

-- The loop from an argument on, `skip` of which are values already taken.
unfoldable pub scan_from : (Bytes → Option ℕ) → Tokens → Bool → ℕ → List Bytes → Tokens ⊎ UsageError
unfolding scan_one
scan_from parse_duration t ended skip [] = inl t
scan_from parse_duration t ended (suc skip) (a ∷ rest) = scan_from parse_duration t ended skip rest
scan_from parse_duration t ended zero (a ∷ rest) = elim (scan_one parse_duration t ended a rest) [
  | inl (t', ended', skip) ↦ scan_from parse_duration t' ended' skip rest
  | inr e ↦ inr e
]

unfoldable pub scan : (Bytes → Option ℕ) → List Bytes → Tokens ⊎ UsageError
unfolding scan_from
scan parse_duration args = scan_from parse_duration no_tokens false 0 args
