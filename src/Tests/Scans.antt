-- ===== src/Tests/Scans.antt =====
-- Directories at the start: two generations of one name, a stray file, an empty directory.
use mathlib.Core.List.{Memᴰ}
use mathlib.Core.List.Memᴰ.{head, tail}
use buff.Common.{
  ◌≡◌, ◌≢◌, ◌↔◌, refl, ◌⊎◌, inl, true, false, none, some, [], ◌∷◌, Bytes, codes, arith, bytes_eq,
  bytes_eq_iff, length, subst, sym, ap, ◌∙◌, ◌≤◌, take_all, take, drop, if◌then◌else◌,
}
use buff.Clip.Name.{valid_name}
use buff.Store.GenId.{id_string, is_after}
use buff.Store.State.{Store, new_store}
use buff.Store.Recovery.{parse_gen_id}
use buff.Store.Record.{MetaFile, max_meta_bytes}
use buff.Store.Restore.{Recovered, restore}
use buff.Store.Restored.{Serves, restored-Serves}
use buff.Store.Disk.{file_data, file_meta}
use buff.Store.Disk.Commit.{DiskMedium}
use buff.Store.Disk.Crash.{Files}
use buff.Store.Scan.{Answers}
use buff.Store.Scan.Directory.{Dir, Tree, stray, directory as dir, granted, lookup, pick}
use buff.Store.Scan.Directory.Picking.{pick_free}
use buff.Store.Scan.Classify.{Candidate, Fate, fate, keep, set_aside, collect}
use buff.Store.Scan.Classify.Sound.{IsSound}
use buff.Store.Scan.Classify.Kept.{fate_keep_iff}
use buff.Store.Scan.Classify.Collected.{fate_collects}
use buff.Store.Scan.Classified.{kept_onto, add_kept}
use buff.Store.Scan.Boot.{
  RootAnswers, existed, made, ensure_dirs, new_disk, IsReadOf, new_disk-Serves,
}
use buff.Tests.Stores.{config, name, plain}
use buff.Tests.Restarts.{directory, survivor, id}
use buff.Tests.Codecs.{json, encode, decode-encode}

abbrev medium : DiskMedium
medium = record { fsync = true; checksum = true; json = json; crc = λ s. length s }

abbrev record_in : Bytes → MetaFile
record_in dirname = record {
  version = 1;
  name = name;
  generation = dirname;
  kind = plain.kind;
  filename = [];
  executable = false;
  size = 2;
  created_at = 5;
  finalized_at = some 7;
  expires_at = none;
  consume_once = false;
  checksum = [];
}

abbrev files : Bytes → Files
files dirname k =
    if bytes_eq k file_meta
    then some (encode (record_in dirname))
    else if bytes_eq k file_data
    then some (codes "hi")
    else none

abbrev older : Bytes
older = codes "00000000000000040000000000000009"

abbrev candidate : Candidate
candidate = record { id = id; mf = record_in directory; size = 2 }

fate_keep_iff_example :
    (fate medium true granted directory (files directory) ≡ keep candidate)
    ↔ IsSound medium true directory (files directory) candidate
fate_keep_iff_example = fate_keep_iff medium true directory (files directory) candidate

abbrev nothing : Files
nothing = λ k. none

fate_collects_example :
    (parse_gen_id directory ≢ none) × ((nothing file_meta ≡ none) ⊎ (nothing file_data ≡ none))
unfolding fate parse_gen_id take drop
fate_collects_example = fate_collects medium true granted directory nothing refl

abbrev taken : Dir
taken = (directory, stray) ∷ []

pick_free_example : lookup taken (pick (length taken) none taken directory 0) ≡ none
pick_free_example = pick_free taken directory

restored-Serves_example : Serves (restore (new_store config) (survivor ∷ [])) survivor
restored-Serves_example =
    restored-Serves config (survivor ∷ []) survivor ((λ m. elim m [ ]), tt) (head refl)

abbrev root : RootAnswers
root = record { clips = existed; quarantine = made; sync_root = none; list_clips = none }

abbrev io : Answers
io = λ dirname. granted

abbrev tree : Tree
tree = record {
  clips = (older, dir (files older)) ∷ (directory, dir (files directory)) ∷ (codes "x", stray) ∷ [];
  quarantine_dir = [];
}

abbrev older_candidate : Candidate
older_candidate = record { id = record { prefix = 4; tail = 9 }; mf = record_in older; size = 2 }

encoded_length : length (encode (record_in older)) ≤ max_meta_bytes
encoded_length = omega arith

older-IsSound : IsSound medium true older (files older) older_candidate
unfolding parse_gen_id take drop valid_name bytes_eq id_string
older-IsSound = record {
  content = codes "hi";
  encoded = encode (record_in older);
  own_name = refl;
  record_there = refl;
  decoded =
      ap json.unmarshal (take_all max_meta_bytes (encode (record_in older)) encoded_length)
      ∙ decode-encode (record_in older);
  understood = refl;
  slot = refl;
  data_there = refl;
  own_record = refl;
  whole = refl;
  measured = refl;
  intact = λ v n. absurd (n refl);
}

older_kept : fate medium true granted older (files older) ≡ keep older_candidate
older_kept = (fate_keep_iff medium true older (files older) older_candidate).1 older-IsSound

later_Memᴰ : (x : Fate) → Memᴰ older_candidate (add_kept x (older_candidate ∷ []))
later_Memᴰ (keep c) = tail (head refl)
later_Memᴰ (set_aside reason) = head refl
later_Memᴰ collect = head refl

older-found : Memᴰ older_candidate (kept_onto medium true io tree.clips [])
unfolding kept_onto
older-found =
    subst
      (λ x.
        Memᴰ older_candidate
          (add_kept (fate medium true granted directory (files directory)) (add_kept x [])))
      (sym older_kept) (later_Memᴰ (fate medium true granted directory (files directory)))

differs : (s t : Bytes) → bytes_eq s t ≡ false → s ≢ t
differs s t b e = let z = (bytes_eq_iff s t).1 e in cc

new_disk-Serves_example :
    (s : Store) × ((new_disk medium config root io tree).1 ≡ inl s)
    × (r : Recovered) × (r.name ≡ name)
    × Serves s r
    × (w : Candidate) × Memᴰ w (kept_onto medium true io tree.clips [])
    × (held : Files) × Memᴰ (id_string w.id, dir held) tree.clips
    × IsReadOf r w held
    × (lookup (new_disk medium config root io tree).0.clips (id_string w.id) ≡ some (dir held))
    × (w.mf.name ≡ name)
    × ((o : Candidate)
        → Memᴰ o (kept_onto medium true io tree.clips [])
        → o.mf.name ≡ name
        → is_after o.id w.id ≡ false)
unfolding ensure_dirs bytes_eq
new_disk-Serves_example =
    new_disk-Serves medium config root io tree older_candidate refl refl
      (
        λ m. elim m [
          | head e ↦ differs older directory refl e
          | tail n ↦ elim n [ head e ↦ differs older (codes "x") refl e | tail l ↦ elim l [ ] ]
        ],
        (
          λ m. elim m [ head e ↦ differs directory (codes "x") refl e | tail n ↦ elim n [ ] ],
          (λ m. elim m [ ], tt),
        ),
      )
      older-found
