-- ===== src/Tests/Disks.antt =====
-- A generation on the disk: created, written, published, and found again after a crash; and a disk
-- with two generations of one name, of which the newer one is served.
use mathlib.Core.List.Memᴰ.{head, tail}
use buff.Common.{
  ◌≡◌, ◌≢◌, refl, ap, ◌⊎◌, inl, inr, Bool, true, false, none, some, [], ◌∷◌, Bytes, codes, arith,
  bytes_eq, length,
}
use buff.Clip.Errors.{Error, fault}
use buff.Clip.Name.{valid_name, utf8_valid}
use buff.Store.GenId.{id_string}
use buff.Store.Generation.{Generation, blank_generation}
use buff.Store.Disk.{
  Home, Os, Names, new_home, no_faults, bind, no_names, file_data, file_meta, file_meta_tmp,
  file_consumed, write_file, sync_file, sync_clips, existing, missing, open_file, sync_home, rename,
  remove_all, unlink_each,
}
use buff.Store.Disk.Commit.{
  DiskMedium, Answer, create_home, make_gen_dir, finalize, claim, commit, content_of, remove,
  record_of, checksum_data, write_meta,
}
use buff.Store.Disk.Crash.{Files, Keeps, Crashed, stays}
use buff.Store.Disk.Crash.Recording.{IsSynced}
use buff.Store.Disk.Crash.Retired.{commit_outcome, IsRenamed, IsDurable}
use buff.Store.Scan.{to_recovered}
use buff.Store.Scan.Directory.{Tree, granted, files_in}
use buff.Store.Scan.Classify.{Candidate, fate, keep}
use buff.Store.Scan.Outcome.{IsRecordable, published_recovered, retired_not_kept, recovered_of}
use buff.Tests.Stores.{name, plain}
use buff.Tests.Restarts.{id}
use buff.Tests.Codecs.{json, json-IsJson, encode, marshalled}

abbrev medium : DiskMedium
medium = record { fsync = true; checksum = true; json = json; crc = λ s. length s }

abbrev bytes : Bytes
bytes = codes "hi"

abbrev gen : Generation
gen = record blank_generation {
  id = id;
  name = name;
  metadata = plain;
  created = 5;
  finalized_at = some 7;
  buf = record { size = 2; closed = false; aborted = false; notify = 1; stored = bytes };
}

-- After `create`, an append and a sync.
abbrev home : Home
home =
    (sync_file no_faults 0
      (write_file no_faults 0 bytes (create_home medium no_faults new_home).0).0).0

home-IsSynced : IsSynced home bytes
unfolding create_home make_gen_dir sync_clips existing open_file write_file sync_file bind bytes_eq
home-IsSynced = record {
  names = bind no_names file_data (some 0);
  inode = 0;
  was_seen = refl;
  data_entry = refl;
  no_tmp = refl;
  data_allocated = omega arith;
  data_flushed = refl;
  stable =
      λ n l. elim l [ inl e ↦ rw e refl | inr (head e) ↦ rw e refl | inr (tail m) ↦ elim m [ ] ];
}

gen-IsRecordable : IsRecordable medium gen bytes
unfolding valid_name utf8_valid record_of id_string
gen-IsRecordable = record {
  slot = refl;
  prefix_fits = omega arith;
  tail_fits = omega arith;
  kind_text = refl;
  filename_text = refl;
  all_written = refl;
  fits = λ sum b short e.
      let l : length (encode (record (record_of gen) { checksum = sum })) ≡ length b =
        ap length (marshalled (record (record_of gen) { checksum = sum }) b e) in
      omega (arith, l, short);
}

-- A crash that loses nothing.
Keeps-all : (h : Home) (n : Names) → Keeps h n (λ k. content_of h (n k))
Keeps-all h n = record { absent = λ k e. rw e refl; kept = λ k i e f. rw e refl }

abbrev publication : Answer
publication = finalize medium no_faults gen home

abbrev published_names : Names
published_names =
    bind (bind (bind (bind no_names file_data (some 0)) file_meta_tmp (some 1)) file_meta_tmp none)
      file_meta (some 1)

abbrev published_files : Files
published_files = λ k. content_of publication.0 (published_names k)

published-Crashed : Crashed publication.0 (some published_files)
unfolding finalize write_meta commit rename sync_home missing record_of checksum_data create_home
    make_gen_dir sync_clips existing open_file write_file sync_file bind bytes_eq
published-Crashed =
    stays published_names published_files (inl refl) (Keeps-all publication.0 published_names)

published_recovered_example :
    (f : Files) × (some published_files ≡ some f)
    × (c : Candidate) × ((verify : Bool) → fate medium verify granted (id_string id) f ≡ keep c)
    × ((t : Tree) → files_in t (id_string id) ≡ f → to_recovered t c ≡ recovered_of gen bytes)
unfolding finalize write_meta commit rename sync_home missing record_of checksum_data create_home
    make_gen_dir sync_clips existing open_file write_file sync_file bind bytes_eq
published_recovered_example =
    published_recovered medium no_faults gen home bytes (some published_files) refl json-IsJson
      home-IsSynced gen-IsRecordable refl published-Crashed

-- The removal after a claim unlinks the data, and then fails.
abbrev torn_removal : Os
torn_removal = record no_faults { remove_fault = some (fault 5); order = file_data ∷ [] }

abbrev claimed : Answer
claimed = claim medium no_faults publication.0

abbrev left : Home
left = remove torn_removal claimed.0

abbrev left_names : Names
left_names = bind (bind (bind published_names file_meta none) file_consumed (some 1)) file_data none

abbrev left_files : Files
left_files = λ k. content_of left (left_names k)

left-Crashed : Crashed left (some left_files)
unfolding claim remove remove_all unlink_each finalize write_meta commit rename sync_home missing
    record_of checksum_data create_home make_gen_dir sync_clips existing open_file write_file
    sync_file bind bytes_eq
left-Crashed = stays left_names left_files (inl refl) (Keeps-all left left_names)

abbrev secret : Candidate
secret = record { id = id; mf = record_of gen; size = 2 }

retired_not_kept_example : fate medium true granted (id_string id) left_files ≢ keep secret
unfolding claim finalize write_meta commit rename sync_home missing record_of checksum_data
    create_home make_gen_dir sync_clips existing open_file write_file sync_file bind bytes_eq
retired_not_kept_example =
    retired_not_kept medium no_faults torn_removal publication.0 claimed left_files refl (inl refl)
      refl left-Crashed true granted (id_string id) secret

commit_outcome_example :
    ((e : Error) × (commit medium no_faults file_meta file_consumed publication.0
        ≡ (publication.0, false, some e)))
    ⊎ (((commit medium no_faults file_meta file_consumed publication.0).1 ≡ true)
        × IsRenamed file_meta file_consumed publication.0
            (commit medium no_faults file_meta file_consumed publication.0).0
        × (medium.fsync ≡ true
            → (commit medium no_faults file_meta file_consumed publication.0).2 ≡ none
            → IsDurable (commit medium no_faults file_meta file_consumed publication.0).0))
commit_outcome_example = commit_outcome medium no_faults file_meta file_consumed publication.0
