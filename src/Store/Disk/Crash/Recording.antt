-- ===== src/Store/Disk/Crash/Recording.antt =====
-- store/disk.go (`writeMeta`): the record on stable storage, beside the bytes.
use buff.Common.{
  ℕ, ◌+◌, ◌<◌, ◌≡◌, refl, ap, sym, ◌∙◌, ◌⊎◌, inl, inr, true, false, Option, Option-cases, Sum-cases,
  none, some, [], Bytes, arith, bytes_eq, is_some,
}
use buff.Clip.Errors.{Error}
use buff.Store.Record.{MetaFile}
use buff.Store.Disk.{
  Home, Names, Os, bind, change, put_file, open_file, write_file, sync_file, file_data,
  file_meta_tmp,
}
use buff.Store.Disk.Commit.{DiskMedium, write_meta, opened_tmp, written_meta, flushed_meta}
use buff.Store.Disk.Crash.{Always, change-Always}

abbrev pub IsDirectory : Option Names → Type 0
IsDirectory n = is_some n ≡ true

-- The home of a generation whose writer has synced its bytes: the directory is there to stay, and
-- the bytes are on stable storage.
pub record IsSynced (h : Home) (d : Bytes) : Type 0 where
  pub names : Names
  pub inode : ℕ
  pub was_seen : h.seen ≡ some names
  pub data_entry : names file_data ≡ some inode
  pub no_tmp : names file_meta_tmp ≡ none
  pub data_allocated : inode < h.fresh
  pub data_flushed : h.files inode ≡ record { content = d; flushed = true }
  pub stable : Always IsDirectory h

-- The record is written beside the bytes, under its temporary name.
pub record IsWritten (h : Home) (d b : Bytes) : Type 0 where
  pub names : Names
  pub inode : ℕ
  pub file : ℕ
  pub now_seen : h.seen ≡ some names
  pub data_entry : names file_data ≡ some inode
  pub meta_entry : names file_meta_tmp ≡ some file
  pub data_flushed : h.files inode ≡ record { content = d; flushed = true }
  pub meta_flushed : h.files file ≡ record { content = b; flushed = true }
  pub stable : Always IsDirectory h

abbrev opened : Home → Names → Home
opened h n =
    put_file
      (record (change h (some (bind n file_meta_tmp (some h.fresh)))) { fresh = h.fresh + 1 })
      h.fresh (record { content = []; flushed = false })

opened_lem :
    (os : Os) (h : Home) (d : Bytes) (w : IsSynced h d)
    → let (t, i, err) = open_file os file_meta_tmp h in
      ((e : Error) × (i ≡ none) × (err ≡ some e))
      ⊎ ((open_file os file_meta_tmp h) ≡ (opened h w.names, some h.fresh, none))
unfolding open_file
opened_lem os h d w = ground (arith, w.was_seen, w.no_tmp)

-- The home after the record was written and flushed.
abbrev pub written : Home → Names → Bytes → Home
written h n b =
    put_file (put_file (opened h n) h.fresh (record { content = b; flushed = false })) h.fresh
      (record { content = b; flushed = true })

refused_tmp :
    (m : DiskMedium) (os : Os) (b : Bytes) (x : Home × (Option ℕ) × Option Error) (e : Error)
    → x.1 ≡ none
    → x.2 ≡ some e
    → (opened_tmp m os b x).1 ≡ some e
refused_tmp m os b (h, none, err) e p q = q
refused_tmp m os b (h, some i, err) e p q = cc

flushed_clean :
    (m : DiskMedium) (os : Os) (i : ℕ) (h : Home)
    → m.fsync ≡ true
    → (flushed_meta m os i h).1 ≡ none
    → (flushed_meta m os i h).0 ≡ put_file h i (record (h.files i) { flushed = true })
unfolding sync_file
flushed_clean m os i h s c = ground (arith, s, c)

written_clean :
    (m : DiskMedium) (os : Os) (b : Bytes) (i : ℕ) (h : Home)
    → m.fsync ≡ true
    → (written_meta m os i (write_file os i b h)).1 ≡ none
    → (written_meta m os i (write_file os i b h)).0
      ≡ put_file
          (put_file h i (record { content = b; flushed = false }))
          i
          (record { content = b; flushed = true })
unfolding write_file sync_file
written_clean m os b i h s c = elim (Option-cases os.write_fault) [
  | inr (e, p) ↦ ground arith
  | inl p ↦
      let h' = put_file h i (record { content = b; flushed = false }) in
      let q : written_meta m os i (write_file os i b h) ≡ flushed_meta m os i h' =
        rw (p, write_file) refl in
      ap (λ x. x.0) q ∙ flushed_clean m os i h' s (sym (ap (λ x. x.1) q) ∙ c) ∙ ground arith
]

pub write_meta_clean :
    (m : DiskMedium) (os : Os) (mf : MetaFile) (h : Home) (d : Bytes) (w : IsSynced h d)
    → m.fsync ≡ true
    → (write_meta m os mf h).1 ≡ none
    → (b : Bytes) × (m.json.marshal mf ≡ inl b) × ((write_meta m os mf h).0 ≡ written h w.names b)
unfolding write_meta
write_meta_clean m os mf h d w s c = elim (Sum-cases (m.json.marshal mf)) [
  | inr (e, p) ↦ ground arith
  | inl (b, p) ↦
      let r : write_meta m os mf h ≡ opened_tmp m os b (open_file os file_meta_tmp h) =
        rw (p, write_meta) refl in
      elim (opened_lem os h d w) [
        | inl (e, p', q) ↦ let x = refused_tmp m os b (open_file os file_meta_tmp h) e p' q in cc
        | inr o ↦
            let q : write_meta m os mf h
                ≡ written_meta m os h.fresh (write_file os h.fresh b (opened h w.names)) =
              r ∙ ap (opened_tmp m os b) o in
            (
              b,
              p,
              ap (λ x. x.0) q
                  ∙ written_clean m os b h.fresh (opened h w.names) s (sym (ap (λ x. x.1) q) ∙ c),
            )
      ]
]

pub written-IsWritten :
    (h : Home) (d b : Bytes) (w : IsSynced h d) → IsWritten (written h w.names b) d b
unfolding bind bytes_eq
written-IsWritten h d b w = record {
  names = bind w.names file_meta_tmp (some h.fresh);
  inode = w.inode;
  file = h.fresh;
  now_seen = refl;
  data_entry = w.data_entry;
  meta_entry = refl;
  data_flushed = ground (arith, w.data_allocated, w.data_flushed);
  meta_flushed = ground arith;
  stable =
      change-Always IsDirectory h (some (bind w.names file_meta_tmp (some h.fresh))) w.stable refl;
}
