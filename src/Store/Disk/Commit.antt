-- ===== src/Store/Disk/Commit.antt =====
-- store/disk.go: the operations of the disk medium on the home of one generation.
use buff.Common.{
  ℕ, ◌⊎◌, inl, inr, Bool, true, false, not, Option, none, some, [], ◌++◌, Bytes, codes,
  if◌then◌else◌,
}
use buff.Clip.Errors.{Error}
use buff.Store.GenId.{hex, id_string}
use buff.Store.Generation.{Generation}
use buff.Store.Record.{MetaFile, meta_version, Json}
use buff.Store.Disk.{
  Home, Os, find, file_data, file_meta, file_meta_tmp, file_consumed, file_deleted, file_aborted,
  not_exist, already_exists, change, no_names, sync_home, sync_clips, rename, open_file, write_file,
  sync_file, remove_all,
}

-- `diskMedium`: the options, and the standard library's JSON and CRC32C.
pub record DiskMedium : Type 0 where
  pub fsync : Bool
  pub checksum : Bool
  pub json : Json
  pub crc : Bytes → ℕ

-- What the store is told of a commit.
abbrev pub Answer : Type 0
Answer = Home × Bool × Option Error

-- `crc32c:%08x`
unfoldable pub checksum_text : ℕ → Bytes
unfolding hex
checksum_text sum = codes "crc32c:" ++ hex 8 sum

-- `checksumData`
unfoldable pub checksum_data : DiskMedium → Option Error → Option Bytes → Bytes ⊎ Error
unfolding checksum_text
checksum_data m (some e) content = inr e
checksum_data m none none = inr not_exist
checksum_data m none (some b) = inl (checksum_text (m.crc b))

abbrev pub content_of : Home → Option ℕ → Option Bytes
content_of h none = none
content_of h (some i) = some (h.files i).content

abbrev pub renamed : DiskMedium → Os → Home × Option Error → Answer
renamed m os (h, some e) = (h, false, some e)
renamed m os (h, none) =
    if not m.fsync then (h, true, none) else (let (t, err) = sync_home os h in (t, true, err))

unfoldable pub commit : DiskMedium → Os → Bytes → Bytes → Home → Answer
unfolding rename sync_home
commit m os from to h = renamed m os (rename os from to h)

-- `create`, `openGen` and `makeGenDir`. On any failure the half-made home is removed.
abbrev undo : Os → Home × Option Error → Home × Option Error
undo os (h, none) = (h, none)
undo os (h, some e) = ((remove_all os h).0, some e)

abbrev with_data : Os → Home × Option Error → Home × Option Error
with_data os (h, some e) = (h, some e)
with_data os (h, none) = let (t, i, err) = open_file os file_data h in (t, err)

unfoldable pub make_gen_dir : DiskMedium → Os → Home → Home × Option Error
unfolding sync_clips
make_gen_dir m os h = elim os.mkdir_fault [
  | some e ↦ (h, some e)
  | none ↦ elim h.seen [
    | some n ↦ (h, some already_exists)
    | none ↦ let t = change h (some no_names) in if not m.fsync then (t, none) else sync_clips os t
  ]
]

unfoldable pub create_home : DiskMedium → Os → Home → Home × Option Error
unfolding make_gen_dir open_file remove_all
create_home m os h = undo os (with_data os (make_gen_dir m os h))

-- The end of `writeMeta`: the flush, where it is on, and the close.
abbrev pub flushed_meta : DiskMedium → Os → ℕ → Home → Home × Option Error
flushed_meta m os i h =
    if m.fsync
    then (let (t, err) = sync_file os i h in
        elim err [ some e ↦ (t, some e) | none ↦ (t, os.close_fault) ])
    else (h, os.close_fault)

abbrev pub written_meta : DiskMedium → Os → ℕ → Home × Option Error → Home × Option Error
written_meta m os i (h, some e) = (h, some e)
written_meta m os i (h, none) = flushed_meta m os i h

abbrev pub opened_tmp :
    DiskMedium → Os → Bytes → Home × (Option ℕ) × Option Error → Home × Option Error
opened_tmp m os b (h, none, err) = (h, err)
opened_tmp m os b (h, some i, err) = written_meta m os i (write_file os i b h)

unfoldable pub write_meta : DiskMedium → Os → MetaFile → Home → Home × Option Error
unfolding open_file write_file sync_file
write_meta m os mf h = elim (m.json.marshal mf) [
  | inr e ↦ (h, some e)
  | inl b ↦ opened_tmp m os b (open_file os file_meta_tmp h)
]

-- The record that `finalize` writes, before its checksum.
unfoldable pub record_of : Generation → MetaFile
unfolding id_string
record_of g = record {
  version = meta_version;
  name = g.name;
  generation = id_string g.id;
  kind = g.metadata.kind;
  filename = g.metadata.filename;
  executable = g.metadata.executable;
  size = g.buf.size;
  created_at = g.created;
  finalized_at = g.finalized_at;
  expires_at = g.expires;
  consume_once = g.consume;
  checksum = [];
}

abbrev pub with_sum : Generation → Bytes ⊎ Error → MetaFile ⊎ Error
with_sum g (inl sum) = inl (record (record_of g) { checksum = sum })
with_sum g (inr e) = inr e

abbrev pub stamped : DiskMedium → Os → Generation → Home → MetaFile ⊎ Error
stamped m os g h =
    if m.checksum
    then with_sum g (checksum_data m os.read_fault (content_of h (find h.seen file_data)))
    else inl (record_of g)

abbrev pub published : DiskMedium → Os → Home × Option Error → Answer
published m os (h, some e) = (h, false, some e)
published m os (h, none) = commit m os file_meta_tmp file_meta h

unfoldable pub finalize : DiskMedium → Os → Generation → Home → Answer
unfolding record_of checksum_data write_meta commit
finalize m os g h = elim (stamped m os g h) [
  | inr e ↦ (h, false, some e)
  | inl mf ↦ published m os (write_meta m os mf h)
]

unfoldable pub claim : DiskMedium → Os → Home → Answer
unfolding commit
claim m os h = commit m os file_meta file_consumed h

unfoldable pub unpublish : DiskMedium → Os → Home → Answer
unfolding commit
unpublish m os h = commit m os file_meta file_deleted h

-- The fault is logged, and not returned.
unfoldable pub abort_publish : DiskMedium → Os → Home → Home
unfolding commit
abort_publish m os h = (commit m os file_meta file_aborted h).0

-- A failure is logged, and not returned.
unfoldable pub remove : Os → Home → Home
unfolding remove_all
remove os h = (remove_all os h).0
