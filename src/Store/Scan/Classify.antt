-- ===== src/Store/Scan/Classify.antt =====
-- store/recovery.go (`classify`): what becomes of one directory of clips/.
pub mod Sound
pub mod Kept
pub mod Collected
use buff.Common.{
  ℕ, ◌≡◌, Bool, true, false, not, ◌&&◌, ◌⊎◌, inl, inr, Option, none, some, List, [], ◌∷◌, Bytes,
  bytes_eq, length, take, if◌then◌else◌, is_some,
}
use buff.Clip.Errors.{Error}
use buff.Clip.Name.{valid_name}
use buff.Store.GenId.{GenId}
use buff.Store.Recovery.{parse_gen_id}
use buff.Store.Record.{MetaFile, Fault, load_meta, validate, max_meta_bytes}
use buff.Store.Disk.{file_data, file_meta}
use buff.Store.Disk.Commit.{DiskMedium, checksum_data}
use buff.Store.Disk.Crash.{Files}
use buff.Store.Scan.Directory.{Faults, OtherError}

pub record Candidate : Type 0 where
  pub id : GenId
  pub mf : MetaFile
  pub size : ℕ

-- The reasons that are logged.
pub data Reason : Type 0 where
  unparseable_name : Reason
  unreadable_meta : Error → Reason
  bad_record : Fault → Reason
  bad_name : Error → Reason
  unstattable_data : Error → Reason
  unreadable_checksum : Error → Reason
  checksum_mismatch : Reason

-- Kept for its name's contest, quarantined, or removed.
pub data Fate : Type 0 where
  keep : Candidate → Fate
  set_aside : Reason → Fate
  collect : Fate

-- `readMeta`: bounded; `none` where the record does not exist.
abbrev pub read_meta : Option OtherError → Option Bytes → Option (Bytes ⊎ Error)
read_meta (some (e, other)) content = some (inr e)
read_meta none none = none
read_meta none (some b) = some (inl (take max_meta_bytes b))

-- The checksum, where one is recorded and it is to be verified.
abbrev pub verified : Bytes ⊎ Error → Candidate → Fate
verified (inr e) c = set_aside (unreadable_checksum e)
verified (inl sum) c =
    if not (bytes_eq sum c.mf.checksum) then set_aside checksum_mismatch else keep c

abbrev pub checked : DiskMedium → Bool → Faults → Bytes → Candidate → Fate
checked m verify io content c =
    if verify && not (bytes_eq c.mf.checksum [])
    then verified (checksum_data m io.read_data (some content)) c
    else keep c

abbrev pub validated : DiskMedium → Bool → Faults → Bytes → Candidate → Option Fault → Fate
validated m verify io content c (some reason) = set_aside (bad_record reason)
validated m verify io content c none = checked m verify io content c

-- From the data file on.
abbrev pub with_data :
    DiskMedium → Bool → Faults → GenId → MetaFile → Option OtherError → Option Bytes → Fate
with_data m verify io id mf (some (e, other)) content = set_aside (unstattable_data e)
with_data m verify io id mf none none = collect
with_data m verify io id mf none (some content) =
    validated m verify io content (record { id = id; mf = mf; size = length content })
      (validate mf id (length content))

abbrev pub named :
    DiskMedium → Bool → Faults → GenId → MetaFile → Option Error → Option Bytes → Fate
named m verify io id mf (some e) content = set_aside (bad_name e)
named m verify io id mf none content = with_data m verify io id mf io.stat_data content

abbrev pub loaded : DiskMedium → Bool → Faults → GenId → MetaFile ⊎ Fault → Option Bytes → Fate
loaded m verify io id (inr reason) content = set_aside (bad_record reason)
loaded m verify io id (inl mf) content = named m verify io id mf (valid_name mf.name) content

abbrev pub read : DiskMedium → Bool → Faults → GenId → Option (Bytes ⊎ Error) → Option Bytes → Fate
read m verify io id none content = collect
read m verify io id (some (inr e)) content = set_aside (unreadable_meta e)
read m verify io id (some (inl b)) content = loaded m verify io id (load_meta m.json b) content

abbrev pub parsed : DiskMedium → Bool → Faults → Option GenId → Files → Fate
parsed m verify io none files = set_aside unparseable_name
parsed m verify io (some id) files =
    read m verify io id (read_meta io.read_meta (files file_meta)) (files file_data)

-- The ordered tree of `classify`, over the files of the directory.
unfoldable pub fate : DiskMedium → Bool → Faults → Bytes → Files → Fate
unfolding parse_gen_id load_meta valid_name validate checksum_data
fate m verify io dirname files = parsed m verify io (parse_gen_id dirname) files
