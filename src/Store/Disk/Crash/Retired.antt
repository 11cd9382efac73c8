-- ===== src/Store/Disk/Crash/Retired.antt =====
-- store/disk.go (`commit`, `claim`, `unpublish`, `abortPublish`): what the committed flag says.
use buff.Common.{
  ℕ, ◌≡◌, ◌∙◌, refl, ap, sym, ◌⊎◌, inl, inr, true, false, Option, Option-cases, Bool-cases, none,
  some, List, [], ◌∷◌, Bytes, arith, bytes_eq, if_elim,
}
use mathlib.Core.List.{Memᴰ}
use mathlib.Core.List.Memᴰ.{head, tail}
use buff.Clip.Errors.{Error}
use buff.Store.Disk.{
  Home, Names, Os, bind, change, find, missing, rename, sync_home, file_meta, file_consumed,
  file_deleted, file_aborted, not_exist,
}
use buff.Store.Disk.Commit.{DiskMedium, Answer, commit, renamed, claim, unpublish, remove}
use buff.Store.Disk.Crash.{Left, Always, Files, Crashed, stays, remove-Always}

-- The directory has no entry of this name.
abbrev pub Without : Bytes → Option Names → Type 0
Without k n = find n k ≡ none

-- One entry was renamed, and nothing else was changed.
pub record IsRenamed (from to : Bytes) (h t : Home) : Type 0 where
  pub names : Names
  pub inode : ℕ
  pub was_seen : h.seen ≡ some names
  pub was_entry : names from ≡ some inode
  pub now_seen : t.seen ≡ some (bind (bind names from none) to (some inode))
  pub same_files : t.files ≡ h.files

-- Every state that a crash can leave is the one seen, or is without the directory.
abbrev pub IsDurable : Home → Type 0
IsDurable t = (n : Option Names) → Left t n → (n ≡ none) ⊎ (n ≡ t.seen)

moved-IsRenamed :
    (from to : Bytes) (h : Home) (n : Names) (i : ℕ)
    → h.seen ≡ some n
    → n from ≡ some i
    → IsRenamed from to h (change h (some (bind (bind n from none) to (some i))))
moved-IsRenamed from to h n i q r = record {
  names = n;
  inode = i;
  was_seen = q;
  was_entry = r;
  now_seen = refl;
  same_files = refl;
}

rename_outcome :
    (os : Os) (from to : Bytes) (h : Home)
    → let r = rename os from to h in
      ((e : Error) × (r ≡ (h, some e))) ⊎ ((r.1 ≡ none) × IsRenamed from to h r.0)
unfolding rename
rename_outcome os from to h = elim (Option-cases os.rename_fault) [
  | inr (e, p) ↦ inl (e, rw (p, rename) refl)
  | inl p ↦ elim (Option-cases h.seen) [
    | inl q ↦ inl (not_exist, simp (p, rename, q))
    | inr (n, q) ↦ elim (Option-cases (n from)) [
      | inl r ↦ inl (not_exist, ground arith)
      | inr (i, r) ↦
          let e : rename os from to h
              ≡ (change h (some (bind (bind n from none) to (some i))), none) =
            ground arith in
          inr (rw e (refl, moved-IsRenamed from to h n i q r))
    ]
  ]
]

missing-none : (n : Option Names) (ns : List (Option Names)) → Memᴰ n (missing ns) → n ≡ none
unfolding missing
missing-none n [] m = elim m [ ]
missing-none n (none ∷ ns) (head e) = e
missing-none n (none ∷ ns) (tail m) = missing-none n ns m
missing-none n (some k ∷ ns) m = missing-none n ns m

synced-IsDurable :
    (os : Os) (h : Home)
    → let r = sync_home os h in
      (r.0.seen ≡ h.seen) × (r.0.files ≡ h.files) × (r.1 ≡ none → IsDurable r.0)
unfolding sync_home
synced-IsDurable os h = elim (Option-cases h.seen) [
  | inl q ↦ rw (q, sync_home) (q, refl, λ e. ground arith)
  | inr (n, q) ↦ elim (Option-cases os.sync_dir_fault) [
    | inr (e, p) ↦ rw (q, sync_home, p) (q, refl, λ e. ground arith)
    | inl p ↦
        let e : sync_home os h ≡ (record h { past = missing h.past }, none) = ground arith in
        rw e (refl, refl, λ r m d. elim d [ inl d ↦ inr d | inr d ↦ inl (missing-none m h.past d) ])
  ]
]

-- The same, of a state that differs only in what a crash can leave.
pub same-IsRenamed :
    (from to : Bytes) (h t u : Home)
    → IsRenamed from to h t
    → u.seen ≡ t.seen
    → u.files ≡ t.files
    → IsRenamed from to h u
same-IsRenamed from to h t u r same_seen same_all = record {
  names = r.names;
  inode = r.inode;
  was_seen = r.was_seen;
  was_entry = r.was_entry;
  now_seen = same_seen ∙ r.now_seen;
  same_files = same_all ∙ r.same_files;
}

renamed_outcome :
    (m : DiskMedium) (os : Os) (from to : Bytes) (h t : Home)
    → IsRenamed from to h t
    → let r = renamed m os (t, none) in
      (r.1 ≡ true) × IsRenamed from to h r.0 × (m.fsync ≡ true → r.2 ≡ none → IsDurable r.0)
renamed_outcome m os from to h t w =
    let (a, b, c) = synced-IsDurable os t in
    elim (Bool-cases m.fsync) [
      | inl f ↦ rw (f, renamed) (refl, same-IsRenamed from to h t (sync_home os t).0 w a b, λ g. c)
      | inr f ↦ rw (f, renamed) (refl, w, λ g. ground arith)
    ]

-- The committed flag of a commit is what became of the rename. Not committed, it reports a fault
-- and has changed nothing; committed, the entry has its new name and not the old one, whatever the
-- flush answered, and no other entry and no file was changed. If it reports no fault and flushing is
-- on, a crash leaves the directory as it is then seen, or none at all.
pub commit_outcome :
    (m : DiskMedium) (os : Os) (from to : Bytes) (h : Home)
    → let r = commit m os from to h in
      ((e : Error) × (r ≡ (h, false, some e)))
      ⊎ ((r.1 ≡ true) × IsRenamed from to h r.0 × (m.fsync ≡ true → r.2 ≡ none → IsDurable r.0))
unfolding commit
commit_outcome m os from to h = elim (rename_outcome os from to h) [
  | inl (e, q) ↦ inl (e, rw (q, commit) refl)
  | inr (q, w) ↦
      let p : rename os from to h ≡ ((rename os from to h).0, none) =
        ap (λ e. ((rename os from to h).0, e)) q in
      let c : commit m os from to h ≡ renamed m os ((rename os from to h).0, none) =
        ap (renamed m os) p in
      inr (rw c (renamed_outcome m os from to h (rename os from to h).0 w))
]

-- The calls that rename the record aside, with their markers.
abbrev pub Retires : DiskMedium → Os → Home → Answer → Type 0
Retires m os h r =
    (r ≡ claim m os h) ⊎ (r ≡ unpublish m os h) ⊎ (r ≡ commit m os file_meta file_aborted h)

aside-Without :
    (to : Bytes) (h t : Home)
    → bytes_eq to file_meta ≡ false
    → IsRenamed file_meta to h t
    → Without file_meta t.seen
unfolding bind bytes_eq
aside-Without to h t b w = rw (w.now_seen, b) refl

retired-Without :
    (m : DiskMedium) (os : Os) (to : Bytes) (h : Home)
    → m.fsync ≡ true
    → bytes_eq to file_meta ≡ false
    → (commit m os file_meta to h).2 ≡ none
    → Always (Without file_meta) (commit m os file_meta to h).0
retired-Without m os to h f b c = elim (commit_outcome m os file_meta to h) [
  | inl (e, q) ↦ let g = ap (λ (a : Answer). a.2) q in cc
  | inr (q, w, d) ↦ λ n l. elim (d f c n l) [
    | inl e ↦ rw e refl
    | inr e ↦ rw e (aside-Without to h (commit m os file_meta to h).0 b w)
  ]
]

unlinked-Without :
    (n : Names) (k : Bytes) → Without file_meta (some n) → Without file_meta (some (bind n k none))
unfolding bind
unlinked-Without n k w =
    if_elim (λ v. v ≡ none) (bytes_eq k file_meta) none (n file_meta) (λ b. refl) (λ b. w)

Crashed-Without :
    (k : Bytes) (h : Home) {f : Files} → Always (Without k) h → Crashed h (some f) → f k ≡ none
Crashed-Without k h a (stays n f l s) = s.absent k (a (some n) l)

-- A generation that was claimed, deleted or aborted stays so. If flushing is on and the rename of
-- its record was answered without a fault, then whatever the removal that follows unlinks and
-- wherever it fails, no crash leaves a directory with that record.
pub retired_stays :
    (m : DiskMedium) (os os' : Os) (h : Home) (r : Answer) (f : Files)
    → m.fsync ≡ true
    → Retires m os h r
    → r.2 ≡ none
    → Crashed (remove os' r.0) (some f)
    → f file_meta ≡ none
unfolding claim unpublish bytes_eq
retired_stays m os os' h r f s k c =
    let a : Always (Without file_meta) r.0 = elim k [
      | inl e ↦
          rw e (retired-Without m os file_consumed h s refl (sym (ap (λ (a : Answer). a.2) e) ∙ c))
      | inr (inl e) ↦
          rw e (retired-Without m os file_deleted h s refl (sym (ap (λ (a : Answer). a.2) e) ∙ c))
      | inr (inr e) ↦
          rw e (retired-Without m os file_aborted h s refl (sym (ap (λ (a : Answer). a.2) e) ∙ c))
    ] in
    Crashed-Without file_meta (remove os' r.0)
      (remove-Always (Without file_meta) refl unlinked-Without os' r.0 a)
