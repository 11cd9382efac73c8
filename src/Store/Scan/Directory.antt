-- ===== src/Store/Scan/Directory.antt =====
-- store/recovery.go: the directories clips/ and quarantine/, and the two ways in which recovery
-- changes them.
pub mod Picking
use buff.Common.{
  decimal, digits, ℕ, suc, zero, ◌+◌, ◌-◌, ◌*◌, ◌/◌, ◌%◌, ◌≡◌, refl, Bool, true, false, not, ◌&&◌,
  Option, none, some, List, [], ◌∷◌, ◌++◌, Bytes, bytes_eq, length, ltb, ◌==◌, if◌then◌else◌,
  is_some,
}
use buff.Clip.Errors.{Error, is}
use buff.Store.Disk.{not_exist}
use buff.Store.Restore.{Recovered}
use buff.Store.Disk.Crash.{Files}

pub data Node : Type 0 where
  stray : Node
  directory : Files → Node

abbrev pub Dir : Type 0
Dir = List (Bytes × Node)

pub record Tree : Type 0 where
  pub clips : Dir
  pub quarantine_dir : Dir

-- The survivors, and the tallies of a boot summary.
pub record Recovery : Type 0 where
  pub survivors : List Recovered
  pub quarantined : ℕ
  pub reclaimed : ℕ

-- An error that is not ErrNotExist: that one is what the directory says.
abbrev pub OtherError : Type 0
OtherError = (e : Error) × (is e not_exist ≡ false)

-- The faults of the calls on one generation's directory, `none` for a call that the system grants.
pub record Faults : Type 0 where
  pub read_meta : Option OtherError
  pub stat_data : Option OtherError
  pub read_data : Option Error
  pub stat_target : Option Error
  pub move : Option Error
  pub remove : Option Error

unfoldable pub lookup : Dir → Bytes → Option Node
unfolding bytes_eq
lookup [] name = none
lookup ((k, entry) ∷ entries) name = if bytes_eq k name then some entry else lookup entries name

unfoldable pub erase : Dir → Bytes → Dir
unfolding bytes_eq
erase [] name = []
erase ((k, entry) ∷ entries) name =
    let rest = erase entries name in if bytes_eq k name then rest else (k, entry) ∷ rest

-- The files of a directory that is there; a missing one has none.
abbrev pub node_files : Option Node → Files
node_files (some (directory f)) = f
node_files (some stray) = λ k. none
node_files none = λ k. none

abbrev pub files_in : Tree → Bytes → Files
files_in t name = node_files (lookup t.clips name)

-- The names that `quarantine` tries, in order: the base, then `%s.%d`.
unfoldable pub target : Bytes → ℕ → Bytes
unfolding digits
target base zero = base
target base (suc i) = base ++ b'.' ∷ decimal (suc i)

-- The loop, from the name with index `i`: the name to move to. `Stat` of a name in the directory
-- succeeds unless it faults.
unfoldable pub pick : ℕ → Option Error → Dir → Bytes → ℕ → Bytes
unfolding lookup target
pick zero err dir base i = target base i
pick (suc n) err dir base i =
    let rest = pick n err dir base (i + 1) in
    if is_some (lookup dir (target base i)) && not (is_some err) then rest else target base i

abbrev pub moved : Option Error → Bytes → Bytes → Option Node → Tree → Recovery → Tree × Recovery
moved (some e) from to entry t rec = (t, rec)
moved none from to none t rec = (t, rec)
moved none from to (some entry) t rec = (
  record { clips = erase t.clips from; quarantine_dir = (to, entry) ∷ t.quarantine_dir },
  record rec { quarantined = rec.quarantined + 1 },
)

-- As many names as the directory has entries are tried, which are enough.
unfoldable pub quarantine : Faults → Bytes → Tree → Recovery → Tree × Recovery
unfolding lookup erase pick
quarantine io dirname t rec =
    moved io.move dirname (pick (length t.quarantine_dir) io.stat_target t.quarantine_dir dirname 0)
      (lookup t.clips dirname) t rec

unfoldable pub remove_gen_dir : Faults → Bytes → Tree → Recovery → Tree × Recovery
unfolding erase
remove_gen_dir io dirname t rec = elim io.remove [
  | some e ↦ (t, rec)
  | none ↦
      (record t { clips = erase t.clips dirname }, record rec { reclaimed = rec.reclaimed + 1 })
]

abbrev pub granted : Faults
granted = record {
  read_meta = none;
  stat_data = none;
  read_data = none;
  stat_target = none;
  move = none;
  remove = none;
}
