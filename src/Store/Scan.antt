-- ===== src/Store/Scan.antt =====
-- store/recovery.go and store/disk.go (`NewDisk`): the scan of the disk at the start, up to what
-- `restore` is given. A directory is the list of its entries, in the order of their listing.
pub mod Directory
pub mod Classify
pub mod ByName
pub mod Newest
pub mod Grouping
pub mod Classified
pub mod Survivors
pub mod Standing
pub mod Sparing
pub mod Contest
pub mod Boot
pub mod Text
pub mod Outcome
use buff.Common.{
  ℕ, ◌+◌, Bool, true, false, not, Option, none, some, List, [], ◌∷◌, ◌++◌, Bytes, ◌⊎◌, inl, inr,
  if◌then◌else◌,
}
use buff.Clip.Errors.{Error, wrap}
use buff.Clip.Meta.{normalized}
use buff.Store.GenId.{GenId, id_string, id_eq}
use buff.Store.Disk.{file_data}
use buff.Store.Disk.Commit.{DiskMedium}
use buff.Store.Restore.{Recovered}
use buff.Store.Scan.Directory.{
  Node, directory, stray, Dir, Tree, Recovery, Faults, lookup, files_in, quarantine, remove_gen_dir,
}
use buff.Store.Scan.Classify.{Candidate, Fate, keep, set_aside, collect, fate}
use buff.Store.Scan.ByName.{Groups, add_to_group, newest}

-- The tree, the tallies, and the candidate if the directory holds one.
abbrev pub disposed : Faults → Bytes → Fate → Tree → Recovery → Tree × Recovery × Option Candidate
disposed io dirname (keep c) t rec = (t, rec, some c)
disposed io dirname (set_aside reason) t rec =
    let (t', rec') = quarantine io dirname t rec in (t', rec', none)
disposed io dirname collect t rec =
    let (t', rec') = remove_gen_dir io dirname t rec in (t', rec', none)

unfoldable pub classify :
    DiskMedium → Bool → Faults → Bytes → Tree → Recovery → Tree × Recovery × Option Candidate
unfolding fate quarantine remove_gen_dir
classify m verify io dirname t rec =
    disposed io dirname (fate m verify io dirname (files_in t dirname)) t rec

-- The faults of the calls on each directory.
abbrev pub Answers : Type 0
Answers = Bytes → Faults

abbrev pub join : Option Candidate → Groups → Groups
join none by_name = by_name
join (some c) by_name = add_to_group c by_name

-- The first loop of `scan`, over the listing of clips/.
unfoldable pub classify_each :
    DiskMedium → Bool → Answers → Dir → Tree → Recovery → Groups → Tree × Recovery × Groups
unfolding classify add_to_group
classify_each m verify io [] t rec by_name = (t, rec, by_name)
classify_each m verify io ((name, stray) ∷ entries) t rec by_name =
    classify_each m verify io entries t rec by_name
classify_each m verify io ((name, directory files) ∷ entries) t rec by_name =
    let (t', rec', c) = classify m verify (io name) name t rec in
    classify_each m verify io entries t' rec' (join c by_name)

-- The removal of a group's other candidates.
unfoldable pub discard_others : Answers → GenId → List Candidate → Tree → Recovery → Tree × Recovery
unfolding remove_gen_dir
discard_others io kept [] t rec = (t, rec)
discard_others io kept (c ∷ cands) t rec =
    let (t', rec') =
      if not (id_eq c.id kept)
      then remove_gen_dir (io (id_string c.id)) (id_string c.id) t rec
      else (t, rec) in
    discard_others io kept cands t' rec'

abbrev stored_in : Option Bytes → Bytes
stored_in none = []
stored_in (some b) = b

-- `toRecovered`: `stored` is what its opener reads.
unfoldable pub to_recovered : Tree → Candidate → Recovered
unfolding normalized
to_recovered t c = record {
  id = c.id;
  name = c.mf.name;
  metadata =
      normalized
        (record { kind = c.mf.kind; filename = c.mf.filename; executable = c.mf.executable });
  created = c.mf.created_at;
  finalized_at = c.mf.finalized_at;
  expires = c.mf.expires_at;
  consume = c.mf.consume_once;
  size = c.size;
  stored = stored_in (files_in t (id_string c.id) file_data);
}

-- The second loop of `scan`, over the groups.
unfoldable pub keep_each : Answers → Groups → Tree → Recovery → Tree × Recovery
unfolding newest discard_others to_recovered
keep_each io [] t rec = (t, rec)
keep_each io ((name, first, rest) ∷ by_name) t rec =
    let kept = newest first rest in
    let (t', rec') = discard_others io kept.id (first ∷ rest) t rec in
    keep_each io by_name t'
      (record rec' { survivors = rec'.survivors ++ to_recovered t' kept ∷ [] })

abbrev pub nothing_yet : Recovery
nothing_yet = record { survivors = []; quarantined = 0; reclaimed = 0 }

-- `scan`: an error only if clips/ cannot be listed.
unfoldable pub scan_disk :
    DiskMedium → Bool → Option Error → Answers → Tree → Tree × (Recovery ⊎ Error)
unfolding classify_each keep_each
scan_disk m verify (some e) io t = (t, inr (wrap [] e))
scan_disk m verify none io t =
    let (t', rec, by_name) = classify_each m verify io t.clips t nothing_yet [] in
    let (t'', rec') = keep_each io by_name t' rec in (t'', inl rec')
