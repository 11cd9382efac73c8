-- ===== src/Store/Disk/Crash/Published.antt =====
-- store/disk.go (`finalize`): what is published is still there after a crash.
use buff.Common.{
  ◌≡◌, refl, ap, sym, ◌∙◌, inl, inr, true, false, not, Option, Option-cases, Sum-cases, none, some,
  Bytes, bytes_eq, if_elim,
}
use buff.Clip.Errors.{Error}
use buff.Store.Generation.{Generation}
use buff.Store.Record.{MetaFile}
use buff.Store.Disk.{Home, Os, bind, rename, sync_home, file_data, file_meta, file_meta_tmp}
use buff.Store.Disk.Commit.{
  DiskMedium, Answer, commit, renamed, finalize, write_meta, stamped, published,
}
use buff.Store.Disk.Crash.{Always, Files, Crashed, gone, stays, change-Always, sync_home-Always}
use buff.Store.Disk.Crash.Retired.{commit_outcome, IsRenamed, IsDurable}
use buff.Store.Disk.Crash.Recording.{
  IsDirectory, IsSynced, IsWritten, written, write_meta_clean, written-IsWritten,
}

rename-IsDirectory :
    (os : Os) (from to : Bytes) (h : Home)
    → Always IsDirectory h
    → Always IsDirectory (rename os from to h).0
unfolding rename
rename-IsDirectory os from to h a = elim (Option-cases os.rename_fault) [
  | inr (e, p) ↦ rw (p, rename) a
  | inl p ↦ elim (Option-cases h.seen) [
    | inl q ↦ rw (p, rename, q) a
    | inr (n, q) ↦ elim (Option-cases (n from)) [
      | inl r ↦ rw (p, rename, q, r) a
      | inr (i, r) ↦
          rw (p, rename, q, r)
            (change-Always IsDirectory h (some (bind (bind n from none) to (some i))) a refl)
    ]
  ]
]

renamed-IsDirectory :
    (m : DiskMedium) (os : Os) (x : Home × Option Error)
    → Always IsDirectory x.0
    → Always IsDirectory (renamed m os x).0
renamed-IsDirectory m os (h, some e) a = a
renamed-IsDirectory m os (h, none) a =
    if_elim (λ (r : Answer). Always IsDirectory r.0) (not m.fsync) (h, true, none)
      ((sync_home os h).0, true, (sync_home os h).1) (λ b. a)
      (λ b. sync_home-Always IsDirectory os h a)

-- The directory holds the bytes and the record.
pub record IsPublished (d b : Bytes) (f : Files) : Type 0 where
  pub bytes_there : f file_data ≡ some d
  pub record_there : f file_meta ≡ some b

-- Every state that a crash can leave has both files.
abbrev pub Lasting : (d b : Bytes) → Home → Type 0
Lasting d b h = (o : Option Files) → Crashed h o → (f : Files) × (o ≡ some f) × IsPublished d b f

renamed-Lasting :
    (h t : Home) (d b : Bytes)
    → (w : IsWritten h d b) → IsRenamed file_meta_tmp file_meta h t
    → IsDurable t
    → Always IsDirectory t
    → Lasting d b t
unfolding bind bytes_eq
renamed-Lasting h t d b w r u a o (gone l) = let z : false ≡ true = a none l in cc
renamed-Lasting h t d b w r u a o (stays n f l k) = elim (u (some n) l) [
  | inl e ↦ cc
  | inr e ↦
      let q : n ≡ bind (bind r.names file_meta_tmp none) file_meta (some r.inode) =
        let z = e ∙ r.now_seen in cc in
      let entries : r.names ≡ w.names = cc in
      let file : r.inode ≡ w.file = cc in
      let x : n file_data ≡ some w.inode = rw (q, entries) w.data_entry in
      let y : n file_meta ≡ some w.file = rw (q, file) refl in
      let v : t.files w.inode ≡ record { content = d; flushed = true } =
        rw r.same_files w.data_flushed in
      let g : t.files w.file ≡ record { content = b; flushed = true } =
        rw r.same_files w.meta_flushed in
      (
        f,
        refl,
        record {
          bytes_there = k.kept file_data w.inode x (rw v refl) ∙ rw v refl;
          record_there = k.kept file_meta w.file y (rw g refl) ∙ rw g refl;
        },
      )
]

finalize-Lasting :
    (m : DiskMedium) (os : Os) (t : Home) (d b : Bytes)
    → m.fsync ≡ true
    → IsWritten t d b
    → (commit m os file_meta_tmp file_meta t).2 ≡ none
    → Lasting d b (commit m os file_meta_tmp file_meta t).0
unfolding commit
finalize-Lasting m os t d b s w c = elim (commit_outcome m os file_meta_tmp file_meta t) [
  | inl (e, q) ↦ let z = ap (λ (a : Answer). a.2) q in cc
  | inr (q, r, u) ↦ renamed-Lasting t (commit m os file_meta_tmp file_meta t).0 d b w r (u s c) (
      renamed-IsDirectory m os (rename os file_meta_tmp file_meta t)
        (rename-IsDirectory os file_meta_tmp file_meta t w.stable))
]

refused_publish :
    (m : DiskMedium) (os : Os) (x : Home × Option Error) → (published m os x).2 ≡ none → x.1 ≡ none
refused_publish m os (h, some e) p = p
refused_publish m os (h, none) p = refl

-- What `finalize` reports as published survives. If flushing is on, the writer has synced the bytes
-- and `finalize` answers without a fault, then any crash leaves the directory, with those bytes and
-- with the record of the generation.
pub finalize_survives :
    (m : DiskMedium) (os : Os) (g : Generation) (h : Home) (d : Bytes)
    → m.fsync ≡ true
    → IsSynced h d
    → (finalize m os g h).2 ≡ none
    → (mf : MetaFile) × (b : Bytes) × (stamped m os g h ≡ inl mf)
      × (m.json.marshal mf ≡ inl b)
      × Lasting d b (finalize m os g h).0
unfolding finalize
finalize_survives m os g h d s w c = elim (Sum-cases (stamped m os g h)) [
  | inr (e, p) ↦
      let q : finalize m os g h ≡ (h, false, some e) = rw (p, finalize) refl in
      let z = ap (λ (a : Answer). a.2) q in cc
  | inl (mf, p) ↦
      let q : finalize m os g h ≡ published m os (write_meta m os mf h) = rw (p, finalize) refl in
      let c' : (published m os (write_meta m os mf h)).2 ≡ none =
        sym (ap (λ (a : Answer). a.2) q) ∙ c in
      let e = refused_publish m os (write_meta m os mf h) c' in
      let (b, v, r) = write_meta_clean m os mf h d w s e in
      let x : write_meta m os mf h ≡ (written h w.names b, none) =
        ap (λ t. (t, (write_meta m os mf h).1)) r ∙ ap (λ o. (written h w.names b, o)) e in
      let y : finalize m os g h ≡ commit m os file_meta_tmp file_meta (written h w.names b) =
        q ∙ ap (published m os) x in
      (
        mf,
        b,
        p,
        v,
        rw y (
            finalize-Lasting m os (written h w.names b) d b s (written-IsWritten h d b w)
              (sym (ap (λ (a : Answer). a.2) y) ∙ c)),
      )
]
