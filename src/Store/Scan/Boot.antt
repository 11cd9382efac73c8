-- ===== src/Store/Scan/Boot.antt =====
-- store/disk.go (`NewDisk`, `ensureDirs`): the store that a start makes of the disk.
use mathlib.Core.List.{Memᴰ}
use buff.Common.{
  ◌≡◌, refl, sym, ap, ◌∙◌, ◌⊎◌, inl, inr, Bool, true, false, ◌&&◌, ◌||◌, Option, none, some, [],
  length, subst, Bytes, map, if◌then◌else◌,
}
use buff.Clip.Errors.{Error}
use buff.Clip.Meta.{normalized}
use buff.Store.GenId.{is_after, id_string}
use buff.Store.Quota.{Config}
use buff.Store.State.{Store, new_store}
use buff.Store.Restore.{Recovered, restore}
use buff.Store.Restored.{Serves, restored-Serves}
use buff.Store.Disk.Commit.{DiskMedium}
use buff.Store.Disk.{file_data}
use buff.Store.Disk.Crash.{Files}
use buff.Store.Scan.{Answers, scan_disk, to_recovered, stored_in}
use buff.Store.Scan.Directory.{Node, directory, Tree, Recovery, lookup, node_files}
use buff.Store.Scan.Classify.{Candidate}
use buff.Store.Scan.Grouping.{Distinct}
use buff.Store.Scan.Classify.Sound.{fate-IsSound}
use buff.Store.Scan.Classified.{kept_onto, lookup_listed}
use buff.Store.Scan.Standing.{Stands}
use buff.Store.Scan.Survivors.{IsFrom, IsFrom-name}
use buff.Store.Scan.Contest.{scan_disk-IsContest}

-- What `Mkdir` answered.
pub data Mkdir : Type 0 where
  made existed : Mkdir
  refused : Error → Mkdir

-- The answers of the system to the calls on the root.
pub record RootAnswers : Type 0 where
  pub clips : Mkdir
  pub quarantine : Mkdir
  pub sync_root : Option Error
  pub list_clips : Option Error

-- `mk`: whether it created the directory.
abbrev pub mk : Mkdir → Bool ⊎ Error
mk made = inl true
mk existed = inl false
mk (refused e) = inr e

abbrev synced : DiskMedium → Option Error → Bool ⊎ Error → Bool ⊎ Error → Option Error
synced m err (inr e) quarantine = some e
synced m err (inl a) (inr e) = some e
synced m err (inl a) (inl b) = if m.fsync && (a || b) then err else none

unfoldable pub ensure_dirs : DiskMedium → RootAnswers → Option Error
ensure_dirs m root = synced m root.sync_root (mk root.clips) (mk root.quarantine)

abbrev pub started : Config → Recovery ⊎ Error → Store ⊎ Error
started c (inr e) = inr e
started c (inl rec) = inl (restore (new_store c) rec.survivors)

abbrev pub scanned : Config → Tree × (Recovery ⊎ Error) → Tree × (Store ⊎ Error)
scanned c (t, r) = (t, started c r)

-- `NewDisk`: the disk after the scan, and the store or the failure. Checksums are verified if the
-- medium writes them.
unfoldable pub new_disk :
    DiskMedium → Config → RootAnswers → Answers → Tree → Tree × (Store ⊎ Error)
unfolding ensure_dirs scan_disk restore new_store
new_disk m c root io t = elim (ensure_dirs m root) [
  | some e ↦ (t, inr e)
  | none ↦ scanned c (scan_disk m m.checksum root.list_clips io t)
]

-- A survivor has what its directory holds: the fields of the record, normalized as the store keeps
-- them, the id in the directory's name, and the bytes of the data file.
pub record IsReadOf (r : Recovered) (c : Candidate) (files : Files) : Type 0 where
  pub same_id : r.id ≡ c.id
  pub same_name : r.name ≡ c.mf.name
  pub same_metadata :
      r.metadata
      ≡ normalized
          (record { kind = c.mf.kind; filename = c.mf.filename; executable = c.mf.executable })
  pub same_created : r.created ≡ c.mf.created_at
  pub same_finalized_at : r.finalized_at ≡ c.mf.finalized_at
  pub same_expires : r.expires ≡ c.mf.expires_at
  pub same_consume : r.consume ≡ c.mf.consume_once
  pub same_bytes : files file_data ≡ some r.stored
  pub whole : r.size ≡ length r.stored

stored_content :
    (t : Tree) (files : Files) (c : Candidate) (content : Bytes)
    → lookup t.clips (id_string c.id) ≡ some (directory files)
    → files file_data ≡ some content
    → (to_recovered t c).stored ≡ content
unfolding to_recovered
stored_content t files c content l e =
    ap (λ n. stored_in (node_files n file_data)) l ∙ ap stored_in e

from-IsReadOf :
    (m : DiskMedium) (verify : Bool) (io : Answers) (t u : Tree) (r : Recovered) (c : Candidate)
    (present : lookup t.clips (id_string c.id) ≡ lookup u.clips (id_string c.id))
    (w : Stands m verify io t.clips u c)
    → IsFrom t r c
    → IsReadOf r c w.files
unfolding to_recovered
from-IsReadOf m verify io t u r c present w (x, e, l) =
    let s = fate-IsSound m verify (io (id_string c.id)) (id_string c.id) w.files c w.sound in
    let b = stored_content x w.files c s.content (l ∙ present ∙ w.there) s.data_there in
    subst (λ y. IsReadOf y c w.files) (sym e)
      (record {
        same_id = refl;
        same_name = refl;
        same_metadata = refl;
        same_created = refl;
        same_finalized_at = refl;
        same_expires = refl;
        same_consume = refl;
        same_bytes = s.data_there ∙ ap some (sym b);
        whole = s.measured ∙ ap length (sym b);
      })

-- A start serves what was stored. If the directories of the root are there and can be listed, and no
-- two entries of clips/ have one name, then `NewDisk` returns a store, and for every directory of
-- clips/ that holds a sound generation, the name in its record is served, from the newest sound
-- directory of this name: one that none of this name sorts after. What is served has the id, the
-- name, the normalized metadata, the times, the expiry and the consume flag of that directory's
-- record, and exactly the bytes of its data file as they were before the start; and the start leaves
-- that directory in clips/ as it was, whatever else it removes or sets aside, and whichever of its
-- removals and moves fault.
pub new_disk-Serves :
    (m : DiskMedium) (c : Config) (root : RootAnswers) (io : Answers) (t : Tree) (d : Candidate)
    → ensure_dirs m root ≡ none
    → root.list_clips ≡ none
    → Distinct (map (λ (e : Bytes × Node). e.0) t.clips)
    → let kept = kept_onto m m.checksum io t.clips [] in
      Memᴰ d kept
      → (s : Store) × ((new_disk m c root io t).1 ≡ inl s)
        × (r : Recovered) × (r.name ≡ d.mf.name)
        × Serves s r
        × (w : Candidate) × Memᴰ w kept
        × (files : Files) × Memᴰ (id_string w.id, directory files) t.clips
        × IsReadOf r w files
        × (lookup (new_disk m c root io t).0.clips (id_string w.id) ≡ some (directory files))
        × (w.mf.name ≡ d.mf.name)
        × ((o : Candidate) → Memᴰ o kept → o.mf.name ≡ d.mf.name → is_after o.id w.id ≡ false)
unfolding new_disk
new_disk-Serves m c root io t d ok listed unique k =
    let (rec, q, w) = scan_disk-IsContest m m.checksum io t unique in
    let (r, n, e) = w.served d k in
    let (x, l, f, v, best) = w.won r n in
    let g : x.mf.name ≡ d.mf.name = sym (IsFrom-name t r x f) ∙ e in
    let scan = scan_disk m m.checksum none io t in
    let a : new_disk m c root io t ≡ scanned c scan =
      ap
        (λ o. elim o [
          | some y ↦ (t, inr y)
          | none ↦ scanned c (scan_disk m m.checksum root.list_clips io t)
        ])
        ok
      ∙ ap (λ o. scanned c (scan_disk m m.checksum o io t)) listed in
    let here : lookup t.clips (id_string x.id) ≡ some (directory v.files) =
      lookup_listed t.clips (id_string x.id) (directory v.files) unique v.listed in
    (
      restore (new_store c) rec.survivors,
      ap (λ (y : Tree × (Store ⊎ Error)). y.1) a ∙ ap (started c) q,
      r,
      e,
      restored-Serves c rec.survivors r w.once n,
      x,
      l,
      v.files,
      v.listed,
      from-IsReadOf m m.checksum io t scan.0 r x (here ∙ sym v.there) v f,
      ap (λ (y : Tree × (Store ⊎ Error)). lookup y.0.clips (id_string x.id)) a ∙ v.there,
      g,
      λ o i y. best o i (y ∙ sym g),
    )
