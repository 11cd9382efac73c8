-- ===== src/Cli/Flags.antt =====
-- cli/parse.go: the flags, and what setting one does. `parse_duration` is `units.ParseDuration`,
-- whose fractions the standard library reads; it answers an int64 of nanoseconds.
use buff.Common.{
  ℕ, ◌==◌, Bool, true, false, Option, none, some, ◌⊎◌, inl, inr, List, [], ◌∷◌, Bytes, codes,
  bytes_eq, slt64, if◌then◌else◌,
}

pub data Action : Type 0 where
  action_copy action_paste action_list action_delete action_stat action_version : Action
  action_help : Action

-- `usageError`, with one constructor for each message.
pub data UsageError : Type 0 where
  empty_output empty_if_match invalid_ttl negative_ttl nameless_slot : UsageError
  unknown_flag takes_no_value requires_value : Bytes → UsageError
  too_many_slots : List Bytes → UsageError
  conflicting_actions force_with_action copy_only output_misplaced : UsageError
  wait_misplaced follow_next_misplaced keep_with_ttl : UsageError
  takes_no_target needs_slot_not_path needs_one_slot : Action → UsageError
  forces_conflict paste_with_paths two_sources nothing_to_copy : UsageError

-- A property of the answer, where there is one.
abbrev pub OnSuccess : {A : Type 0} → (A → Type 0) → A ⊎ UsageError → Type 0
OnSuccess P (inl a) = P a
OnSuccess P (inr e) = Unit {0}

pub record Flags : Type 0 where
  pub copy : Bool
  pub paste : Bool
  pub list : Bool
  pub delete : Bool
  pub stat : Bool
  pub version : Bool
  pub help : Bool
  pub output : Bytes
  pub output_set : Bool
  pub wait : Bool
  pub follow_next : Bool
  pub ttl : ℕ
  pub ttl_set : Bool
  pub keep : Bool
  pub consume : Bool
  pub if_match : Bytes
  pub if_match_set : Bool
  pub server : Bytes
  pub server_set : Bool

abbrev pub no_flags : Flags
no_flags = record {
  copy = false;
  paste = false;
  list = false;
  delete = false;
  stat = false;
  version = false;
  help = false;
  output = [];
  output_set = false;
  wait = false;
  follow_next = false;
  ttl = 0;
  ttl_set = false;
  keep = false;
  consume = false;
  if_match = [];
  if_match_set = false;
  server = [];
  server_set = false;
}

unfoldable pub set_output : Flags → Bytes → Flags ⊎ UsageError
set_output f [] = inr empty_output
set_output f v = inl (record f { output = v; output_set = true })

unfoldable pub set_ttl : (Bytes → Option ℕ) → Flags → Bytes → Flags ⊎ UsageError
set_ttl parse_duration f v = elim (parse_duration v) [
  | none ↦ inr invalid_ttl
  | some d ↦ if slt64 d 0 then inr negative_ttl else inl (record f { ttl = d; ttl_set = true })
]

unfoldable pub set_if_match : Flags → Bytes → Flags ⊎ UsageError
set_if_match f [] = inr empty_if_match
set_if_match f v = inl (record f { if_match = v; if_match_set = true })

abbrev pub set_server : Flags → Bytes → Flags ⊎ UsageError
set_server f v = inl (record f { server = v; server_set = true })

pub data FlagSpec : Type 0 where
  bool_flag : (Flags → Flags) → FlagSpec
  value_flag : (Flags → Bytes → Flags ⊎ UsageError) → FlagSpec

-- `flagSpecs`
unfoldable pub flag_specs : (Bytes → Option ℕ) → List (Bytes × FlagSpec)
unfolding set_ttl set_output set_if_match
flag_specs parse_duration =
    (codes "-c", bool_flag (λ f. record f { copy = true }))
    ∷ (codes "--copy", bool_flag (λ f. record f { copy = true }))
    ∷ (codes "-p", bool_flag (λ f. record f { paste = true }))
    ∷ (codes "--paste", bool_flag (λ f. record f { paste = true }))
    ∷ (codes "-l", bool_flag (λ f. record f { list = true }))
    ∷ (codes "--list", bool_flag (λ f. record f { list = true }))
    ∷ (codes "-d", bool_flag (λ f. record f { delete = true }))
    ∷ (codes "--delete", bool_flag (λ f. record f { delete = true }))
    ∷ (codes "-s", bool_flag (λ f. record f { stat = true }))
    ∷ (codes "--stat", bool_flag (λ f. record f { stat = true }))
    ∷ (codes "--keep", bool_flag (λ f. record f { keep = true }))
    ∷ (codes "--consume", bool_flag (λ f. record f { consume = true }))
    ∷ (codes "--wait", bool_flag (λ f. record f { wait = true }))
    ∷ (codes "--follow-next", bool_flag (λ f. record f { follow_next = true }))
    ∷ (codes "--version", bool_flag (λ f. record f { version = true }))
    ∷ (codes "-h", bool_flag (λ f. record f { help = true }))
    ∷ (codes "--help", bool_flag (λ f. record f { help = true }))
    ∷ (codes "-o", value_flag set_output)
    ∷ (codes "--output", value_flag set_output)
    ∷ (codes "--server", value_flag set_server)
    ∷ (codes "--ttl", value_flag (set_ttl parse_duration))
    ∷ (codes "--if-match", value_flag set_if_match)
    ∷ []

unfoldable pub find_spec : Bytes → List (Bytes × FlagSpec) → Option FlagSpec
unfolding bytes_eq
find_spec name [] = none
find_spec name ((key, spec) ∷ rest) = if bytes_eq key name then some spec else find_spec name rest

-- `splitFlag`: the text before the first "=", and the text after it if there is one.
unfoldable pub split_flag : Bytes → Bytes × Option Bytes
split_flag [] = ([], none)
split_flag (c ∷ s) =
    let rest = split_flag s in if c == 61 then ([], some s) else (c ∷ rest.0, rest.1)

-- `setValue`, and the number of arguments it consumed.
abbrev pub counted : ℕ → Flags ⊎ UsageError → (Flags × ℕ) ⊎ UsageError
counted n (inl f) = inl (f, n)
counted n (inr e) = inr e

abbrev pub apply_value :
    (Flags → Bytes → Flags ⊎ UsageError)
    → Flags
    → Bytes
    → Option Bytes
    → List Bytes
    → (Flags × ℕ) ⊎ UsageError
apply_value set f name (some inline) rest = counted 0 (set f inline)
apply_value set f name none [] = inr (requires_value name)
apply_value set f name none (v ∷ rest) = counted 1 (set f v)

abbrev pub apply_spec :
    Option FlagSpec → Flags → Bytes → Bytes → Option Bytes → List Bytes → (Flags × ℕ) ⊎ UsageError
apply_spec none f a name inline rest = inr (unknown_flag a)
apply_spec (some (bool_flag set)) f a name (some inline) rest = inr (takes_no_value name)
apply_spec (some (bool_flag set)) f a name none rest = inl (set f, 0)
apply_spec (some (value_flag set)) f a name inline rest = apply_value set f name inline rest

-- `flags.set` of the argument `a` that `rest` follows.
unfoldable pub set_flag : (Bytes → Option ℕ) → Flags → Bytes → List Bytes → (Flags × ℕ) ⊎ UsageError
unfolding find_spec flag_specs split_flag
set_flag parse_duration f a rest =
    let (name, inline) = split_flag a in
    apply_spec (find_spec name (flag_specs parse_duration)) f a name inline rest
