-- ===== src/Cli/Parse/Accepted.antt =====
-- Every invocation that the grammar accepts is one that a command can run.
pub mod Transfer
pub mod Management
pub mod Result
use buff.Common.{
  ℕ, suc, ◌≡◌, refl, sym, subst, ◌≢◌, ◌==◌, Bool, true, false, not, ◌&&◌, ◌||◌, Option, ◌⊎◌, inl,
  inr, List, [], ◌∷◌, Bytes, codes, arith, slt64, ltb, length, if◌then◌else◌, Bool-cases, Sum-cases,
}
use buff.Client.Opts.{PutOpts, GetOpts, no_put, no_get}
use buff.Cli.Flags.{
  OnSuccess, Flags, Action, action_copy, action_paste, action_list, action_delete, action_stat,
  action_version, action_help, UsageError,
}
use buff.Cli.Scan.{Tokens, scan}
use buff.Cli.Scan.Values.{HasValues}
use buff.Cli.Scan.Named.{AllNamed, IsScanned, scan-IsScanned}
use buff.Cli.Parse.{
  Invocation, bare, based, is_empty, management_action, picked, has_copy_options, is_listing,
  one_slot, parse_manage, mode, or_default, parse_paste, parse_copy, is_paste, parse_transfer,
  parse, parse_args,
}

-- A write has one source, the paths or the piped input, and no option of a read; its retention is
-- not negative, and is not given twice.
pub record IsCopy (in_is_tty : Bool) (i : Invocation) : Type 0 where
  pub named : i.slot ≢ []
  pub one_source : is_empty i.paths ≡ not in_is_tty
  pub no_output : i.output_set ≡ false
  pub no_read : i.get ≡ no_get
  pub ttl_signed : slt64 i.put.ttl 0 ≡ false
  pub one_retention : i.put.keep ≡ true → i.put.ttl ≡ 0

-- A read has no source and no option of a write, and its output, if it is given, is a path.
pub record IsPaste (i : Invocation) : Type 0 where
  pub named : i.slot ≢ []
  pub no_source : i.paths ≡ []
  pub no_write : i.put ≡ no_put
  pub output_named : i.output_set ≡ true → i.output ≢ []

-- A management action has no option of a read or a write.
pub record IsBare (i : Invocation) : Type 0 where
  pub no_source : i.paths ≡ []
  pub no_output : i.output_set ≡ false
  pub no_write : i.put ≡ no_put
  pub no_read : i.get ≡ no_get

abbrev pub IsCommand : Bool → Invocation → Type 0
IsCommand in_is_tty i = elim i.act [
  | action_copy ↦ IsCopy in_is_tty i
  | action_paste ↦ IsPaste i
  | action_list ↦ IsBare i × (i.slot ≡ [])
  | action_version ↦ IsBare i × (i.slot ≡ [])
  | action_delete ↦ IsBare i × (i.slot ≢ [])
  | action_stat ↦ IsBare i × (i.slot ≢ [])
  | action_help ↦ i ≡ bare action_help
]

-- No slot and no path of the arguments is dropped.
pub record IsComplete (t : Tokens) (i : Invocation) : Type 0 where
  pub all_paths : i.paths ≡ t.paths
  pub all_slots : (t.slots ≡ []) ⊎ (t.slots ≡ i.slot ∷ [])

abbrev pub Accepts : Tokens → Bool → Invocation → Type 0
Accepts t in_is_tty i = IsCommand in_is_tty i × ((i.act ≡ action_help) ⊎ IsComplete t i)

pub guarded :
    {A : Type 0} (P : A → Type 0) (c : Bool) (e : UsageError) (r : A ⊎ UsageError)
    → (c ≡ false → OnSuccess P r)
    → OnSuccess P (if c then inr e else r)
guarded P true e r h = tt
guarded P false e r h = h refl

pub branched :
    {A : Type 0} (P : A → Type 0) (c : Bool) (q r : A ⊎ UsageError)
    → (c ≡ true → OnSuccess P q)
    → (c ≡ false → OnSuccess P r)
    → OnSuccess P (if c then q else r)
branched P true q r g h = g refl
branched P false q r g h = h refl

pub or_default_named : (slots : List Bytes) → AllNamed slots → or_default slots ≢ []
or_default_named [] a = λ q. cc
or_default_named (s ∷ []) (n, a) = n
or_default_named (s ∷ t ∷ rest) a = λ q. cc

pub or_default_all :
    (slots : List Bytes)
    → ltb 1 (length slots) ≡ false
    → (slots ≡ []) ⊎ (slots ≡ or_default slots ∷ [])
or_default_all [] h = inl refl
or_default_all (s ∷ []) h = inr refl
or_default_all (s ∷ t ∷ rest) h = ground arith

pub is_empty-nil : {A : Type 0} (s : List A) → is_empty s ≡ true → s ≡ []
is_empty-nil [] h = refl
is_empty-nil (a ∷ s) h = cc
