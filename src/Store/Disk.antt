-- ===== src/Store/Disk.antt =====
-- store/disk.go: the home of one generation, clips/<genid>, and the calls of the operating system
-- that the disk medium makes there. A path is its last component; a file is known by its inode.
pub mod Commit
pub mod Crash
use buff.Common.{
  ℕ, ◌+◌, ◌≡◌, Bool, true, false, not, Option, none, some, List, [], ◌∷◌, ◌++◌, Bytes, codes,
  bytes_eq, take, ◌==◌, if◌then◌else◌, is_some,
}
use buff.Clip.Errors.{Error, fault}

abbrev pub file_data : Bytes
file_data = codes "data"

abbrev pub file_meta : Bytes
file_meta = codes "meta.json"

abbrev pub file_meta_tmp : Bytes
file_meta_tmp = codes "meta.json.tmp"

abbrev pub file_consumed : Bytes
file_consumed = codes "meta.consumed"

abbrev pub file_deleted : Bytes
file_deleted = codes "meta.deleted"

abbrev pub file_aborted : Bytes
file_aborted = codes "meta.aborted"

-- ENOENT and EEXIST.
abbrev pub not_exist : Error
not_exist = fault 2

abbrev pub already_exists : Error
already_exists = fault 17

-- The entries of a directory.
abbrev pub Names : Type 0
Names = Bytes → Option ℕ

abbrev pub no_names : Names
no_names = λ k. none

unfoldable pub bind : Names → Bytes → Option ℕ → Names
unfolding bytes_eq
bind n k v = λ m. if bytes_eq k m then v else n m

-- What a file holds, and whether that is on stable storage.
pub record File : Type 0 where
  pub content : Bytes
  pub flushed : Bool

-- `seen` is the directory, if it exists, as processes see it; `past` are the earlier states that a
-- crash can still bring back, which a sync of the directory or of its parent removes.
pub record Home : Type 0 where
  pub files : ℕ → File
  pub fresh : ℕ
  pub seen : Option Names
  pub past : List (Option Names)

-- No directory yet.
abbrev pub new_home : Home
new_home = record {
  files = λ i. record { content = []; flushed = false };
  fresh = 0;
  seen = none;
  past = [];
}

-- The faults of the calls of one operation, `none` for a call that succeeds. A write that fails has
-- stored `written` bytes; a removal unlinks in the order `order`, and where it fails it has
-- unlinked those.
pub record Os : Type 0 where
  pub mkdir_fault : Option Error
  pub open_fault : Option Error
  pub write_fault : Option Error
  pub written : ℕ
  pub sync_fault : Option Error
  pub close_fault : Option Error
  pub read_fault : Option Error
  pub rename_fault : Option Error
  pub sync_dir_fault : Option Error
  pub remove_fault : Option Error
  pub order : List Bytes

abbrev pub no_faults : Os
no_faults = record {
  mkdir_fault = none;
  open_fault = none;
  write_fault = none;
  written = 0;
  sync_fault = none;
  close_fault = none;
  read_fault = none;
  rename_fault = none;
  sync_dir_fault = none;
  remove_fault = none;
  order = [];
}

abbrev pub change : Home → Option Names → Home
change h n = record h { seen = n; past = h.seen ∷ h.past }

abbrev pub put_file : Home → ℕ → File → Home
put_file h i f = record h { files = λ j. if i == j then f else h.files j }

abbrev pub find : Option Names → Bytes → Option ℕ
find none k = none
find (some n) k = n k

-- The states without a directory, and those with one.
unfoldable pub missing : List (Option Names) → List (Option Names)
missing [] = []
missing (none ∷ ns) = none ∷ missing ns
missing (some n ∷ ns) = missing ns

unfoldable pub existing : List (Option Names) → List (Option Names)
existing [] = []
existing (none ∷ ns) = existing ns
existing (some n ∷ ns) = some n ∷ existing ns

-- `syncDir` of the home: the entries in it are as they are seen.
unfoldable pub sync_home : Os → Home → Home × Option Error
unfolding missing
sync_home os h = elim h.seen [
  | none ↦ (h, some not_exist)
  | some n ↦ elim os.sync_dir_fault [
    | some e ↦ (h, some e)
    | none ↦ (record h { past = missing h.past }, none)
  ]
]

-- `syncDir` of clips/: whether the home exists is as it is seen.
unfoldable pub sync_clips : Os → Home → Home × Option Error
unfolding missing existing
sync_clips os h = elim os.sync_dir_fault [
  | some e ↦ (h, some e)
  | none ↦
      (record h { past = elim h.seen [ none ↦ missing h.past | some n ↦ existing h.past ] }, none)
]

unfoldable pub rename : Os → Bytes → Bytes → Home → Home × Option Error
unfolding bind
rename os from to h = elim os.rename_fault [
  | some e ↦ (h, some e)
  | none ↦ elim h.seen [
    | none ↦ (h, some not_exist)
    | some n ↦ elim (n from) [
      | none ↦ (h, some not_exist)
      | some i ↦ (change h (some (bind (bind n from none) to (some i))), none)
    ]
  ]
]

-- `OpenFile` with O_CREATE and O_TRUNC: the inode.
unfoldable pub open_file : Os → Bytes → Home → Home × (Option ℕ) × Option Error
unfolding bind
open_file os k h = elim os.open_fault [
  | some e ↦ (h, none, some e)
  | none ↦ elim h.seen [
    | none ↦ (h, none, some not_exist)
    | some n ↦ elim (n k) [
      | some i ↦ (put_file h i (record { content = []; flushed = false }), some i, none)
      | none ↦ (
        put_file (record (change h (some (bind n k (some h.fresh)))) { fresh = h.fresh + 1 })
            h.fresh (record { content = []; flushed = false }),
        some h.fresh,
        none,
      )
    ]
  ]
]

unfoldable pub write_file : Os → ℕ → Bytes → Home → Home × Option Error
write_file os i b h = elim os.write_fault [
  | some e ↦ (put_file h i (record { content = take os.written b; flushed = false }), some e)
  | none ↦ (put_file h i (record { content = b; flushed = false }), none)
]

unfoldable pub sync_file : Os → ℕ → Home → Home × Option Error
sync_file os i h = elim os.sync_fault [
  | some e ↦ (h, some e)
  | none ↦ (put_file h i (record (h.files i) { flushed = true }), none)
]

-- The unlinks of `RemoveAll`, one by one.
unfoldable pub unlink_each : List Bytes → Home → Home
unfolding bind
unlink_each [] h = h
unlink_each (k ∷ ks) h = elim h.seen [
  | none ↦ h
  | some n ↦ unlink_each ks (change h (some (bind n k none)))
]

-- `RemoveAll`
unfoldable pub remove_all : Os → Home → Home × Option Error
unfolding unlink_each
remove_all os h =
    let u = unlink_each os.order h in
    elim os.remove_fault [ some e ↦ (u, some e) | none ↦ (change u none, none) ]
