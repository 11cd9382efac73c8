-- ===== src/Store/Scan/Survivors.antt =====
-- store/recovery.go (`scan`): who survives.
use mathlib.Core.List.{Memᴰ}
use buff.Common.{
  ◌≡◌, refl, ap, ◌∙◌, inl, inr, Bool, not, List, [], ◌∷◌, Bytes, if_elim, Option-cases,
  if◌then◌else◌,
}
use buff.Store.GenId.{GenId, id_string, id_eq}
use buff.Store.Restore.{Recovered}
use buff.Store.Disk.Commit.{DiskMedium}
use buff.Store.Scan.{Answers, classify, classify_each, disposed, join, discard_others, to_recovered}
use buff.Store.Scan.Directory.{
  files_in, directory, stray, Dir, Tree, Recovery, Faults, lookup, quarantine, remove_gen_dir,
}
use buff.Store.Scan.Classify.{Candidate, Fate, keep, set_aside, collect, fate}
use buff.Store.Scan.ByName.{Groups, newest}
use buff.Store.Scan.Newest.{IsNewest, newest_lem}
use buff.Store.Scan.Grouping.{Group, members}

abbrev pub winner : Group → Candidate
winner (name, first, rest) = newest first rest

pub winner-Memᴰ : (g : Group) → Memᴰ (winner g) (members g)
winner-Memᴰ (name, first, rest) = (newest_lem first rest).0

pub winner-IsNewest : (g : Group) → IsNewest (winner g) (members g)
winner-IsNewest (name, first, rest) = (newest_lem first rest).1

-- The survivor is what this candidate was made into, in a state of the disk in which the candidate's
-- directory is as at the start.
abbrev pub IsFrom : Tree → Recovered → Candidate → Type 0
IsFrom start r c =
    (t : Tree) × (r ≡ to_recovered t c)
    × (lookup t.clips (id_string c.id) ≡ lookup start.clips (id_string c.id))

pub IsFrom-name :
    (start : Tree) (r : Recovered) (c : Candidate) → IsFrom start r c → r.name ≡ c.mf.name
unfolding to_recovered
IsFrom-name start r c (t, e, l) = ap (λ x. x.name) e

remove_gen_dir_survivors :
    (io : Faults) (dirname : Bytes) (t : Tree) (rec : Recovery)
    → (remove_gen_dir io dirname t rec).1.survivors ≡ rec.survivors
unfolding remove_gen_dir
remove_gen_dir_survivors io dirname t rec = elim (Option-cases io.remove) [
  | inr (e, p) ↦ rw (p, remove_gen_dir) refl
  | inl p ↦ rw (p, remove_gen_dir) refl
]

quarantine_survivors :
    (io : Faults) (dirname : Bytes) (t : Tree) (rec : Recovery)
    → (quarantine io dirname t rec).1.survivors ≡ rec.survivors
unfolding quarantine
quarantine_survivors io dirname t rec = elim (Option-cases io.move) [
  | inr (e, p) ↦ rw (p, quarantine) refl
  | inl p ↦ elim (Option-cases (lookup t.clips dirname)) [
    | inl q ↦ rw (p, quarantine, q) refl
    | inr (x, q) ↦ rw (p, quarantine, q) refl
  ]
]

disposed_survivors :
    (io : Faults) (dirname : Bytes) (x : Fate) (t : Tree) (rec : Recovery)
    → (disposed io dirname x t rec).1.survivors ≡ rec.survivors
disposed_survivors io dirname (keep c) t rec = refl
disposed_survivors io dirname (set_aside reason) t rec = quarantine_survivors io dirname t rec
disposed_survivors io dirname collect t rec = remove_gen_dir_survivors io dirname t rec

pub classify_each_survivors :
    (m : DiskMedium) (verify : Bool) (io : Answers) (entries : Dir) (t : Tree) (rec : Recovery)
    (groups : Groups)
    → (classify_each m verify io entries t rec groups).1.survivors ≡ rec.survivors
unfolding classify_each classify
classify_each_survivors m verify io [] t rec groups = refl
classify_each_survivors m verify io ((name, stray) ∷ entries) t rec groups =
    classify_each_survivors m verify io entries t rec groups
classify_each_survivors m verify io ((name, directory f) ∷ entries) t rec groups =
    let s = classify m verify (io name) name t rec in
    classify_each_survivors m verify io entries s.0 s.1 (join s.2 groups)
    ∙ disposed_survivors (io name) name (fate m verify (io name) name (files_in t name)) t rec

pub discard_others_survivors :
    (io : Answers) (id : GenId) (cs : List Candidate) (t : Tree) (rec : Recovery)
    → (discard_others io id cs t rec).1.survivors ≡ rec.survivors
unfolding discard_others
discard_others_survivors io id [] t rec = refl
discard_others_survivors io id (c ∷ cs) t rec =
    let s =
      if not (id_eq c.id id)
      then remove_gen_dir (io (id_string c.id)) (id_string c.id) t rec
      else (t, rec) in
    discard_others_survivors io id cs s.0 s.1
    ∙ if_elim (λ (x : Tree × Recovery). x.1.survivors ≡ rec.survivors) (not (id_eq c.id id))
        (remove_gen_dir (io (id_string c.id)) (id_string c.id) t rec) (t, rec)
        (λ b. remove_gen_dir_survivors (io (id_string c.id)) (id_string c.id) t rec) (λ b. refl)
