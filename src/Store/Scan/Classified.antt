-- ===== src/Store/Scan/Classified.antt =====
-- store/recovery.go (`scan`): the first loop gathers the candidates that the listing holds.
use mathlib.Core.List.{Memᴰ}
use mathlib.Core.List.Memᴰ.{head, tail}
use buff.Common.{
  ◌≡◌, refl, sym, ap, subst, ◌∙◌, inl, inr, Bool, true, false, Option, some, List, [], ◌∷◌, Bytes,
  bytes_eq, bytes_eq_iff, bytes_eq_sound, Bool-cases, Option-cases, map,
}
use buff.Store.Disk.Commit.{DiskMedium}
use buff.Store.Disk.Crash.{Files}
use buff.Store.Scan.{Answers, classify, classify_each, disposed, join}
use buff.Store.Scan.Directory.{
  Node, directory, stray, Dir, Tree, Recovery, Faults, lookup, files_in, node_files, quarantine,
  remove_gen_dir,
}
use buff.Store.Scan.Directory.Picking.{lookup-erase_ne}
use buff.Store.Scan.Classify.{Candidate, Fate, keep, set_aside, collect, fate}
use buff.Store.Scan.ByName.{Groups}
use buff.Store.Scan.Grouping.{IsGrouped, Distinct, add_to_group-IsGrouped}

abbrev pub add_kept : Fate → List Candidate → List Candidate
add_kept (keep c) cs = c ∷ cs
add_kept (set_aside reason) cs = cs
add_kept collect cs = cs

-- The candidates that the directories of a listing hold, the last one first, before `acc`.
unfoldable pub kept_onto : DiskMedium → Bool → Answers → Dir → List Candidate → List Candidate
unfolding fate
kept_onto m verify io [] acc = acc
kept_onto m verify io ((name, stray) ∷ entries) acc = kept_onto m verify io entries acc
kept_onto m verify io ((name, directory f) ∷ entries) acc =
    kept_onto m verify io entries (add_kept (fate m verify (io name) name f) acc)

-- The entries are those of the tree.
abbrev pub Present : Dir → Tree → Type 0
Present entries t =
    (name : Bytes) (f : Files)
    → Memᴰ (name, directory f) entries
    → lookup t.clips name ≡ some (directory f)

quarantine_others :
    (io : Faults) (dirname name : Bytes) (t : Tree) (rec : Recovery)
    → bytes_eq dirname name ≡ false
    → lookup (quarantine io dirname t rec).0.clips name ≡ lookup t.clips name
unfolding quarantine
quarantine_others io dirname name t rec b = elim (Option-cases io.move) [
  | inr (e, p) ↦ rw (p, quarantine) refl
  | inl p ↦ elim (Option-cases (lookup t.clips dirname)) [
    | inl q ↦ rw (p, quarantine, q) refl
    | inr (x, q) ↦ rw (p, quarantine, q) (lookup-erase_ne t.clips dirname name b)
  ]
]

pub remove_gen_dir_others :
    (io : Faults) (dirname name : Bytes) (t : Tree) (rec : Recovery)
    → bytes_eq dirname name ≡ false
    → lookup (remove_gen_dir io dirname t rec).0.clips name ≡ lookup t.clips name
unfolding remove_gen_dir
remove_gen_dir_others io dirname name t rec b = elim (Option-cases io.remove) [
  | inr (e, p) ↦ rw (p, remove_gen_dir) refl
  | inl p ↦ rw (p, remove_gen_dir) (lookup-erase_ne t.clips dirname name b)
]

pub disposed_others :
    (io : Faults) (dirname name : Bytes) (x : Fate) (t : Tree) (rec : Recovery)
    → bytes_eq dirname name ≡ false
    → lookup (disposed io dirname x t rec).0.clips name ≡ lookup t.clips name
disposed_others io dirname name (keep c) t rec b = refl
disposed_others io dirname name (set_aside reason) t rec b =
    quarantine_others io dirname name t rec b
disposed_others io dirname name collect t rec b = remove_gen_dir_others io dirname name t rec b

disposed_kept :
    (io : Faults) (dirname : Bytes) (x : Fate) (t : Tree) (rec : Recovery) (acc : List Candidate)
    (groups : Groups)
    → IsGrouped acc groups
    → IsGrouped (add_kept x acc) (join (disposed io dirname x t rec).2 groups)
disposed_kept io dirname (keep c) t rec acc groups w = add_to_group-IsGrouped c acc groups w
disposed_kept io dirname (set_aside reason) t rec acc groups w = w
disposed_kept io dirname collect t rec acc groups w = w

pub named_Memᴰ :
    {name : Bytes} {x : Node} {entries : Dir}
    → Memᴰ (name, x) entries
    → Memᴰ name (map (λ (e : Bytes × Node). e.0) entries)
named_Memᴰ {entries = []} m = elim m [ ]
named_Memᴰ {entries = e ∷ entries} (head q) = head (ap (λ (x : Bytes × Node). x.0) q)
named_Memᴰ {entries = e ∷ entries} (tail m) = tail (named_Memᴰ {entries = entries} m)

pub apart :
    (k n : Bytes) {names : List Bytes} → ¬ Memᴰ k names → Memᴰ n names → bytes_eq k n ≡ false
apart k n {names} f m = elim (Bool-cases (bytes_eq k n)) [
  | inr b ↦ b
  | inl b ↦ absurd (f (subst (λ x. Memᴰ x names) (sym (bytes_eq_sound k n b)) m))
]

-- In a directory whose names are distinct, each entry is the one that its name finds.
pub lookup_listed :
    (entries : Dir) (name : Bytes) (x : Node)
    → Distinct (map (λ (e : Bytes × Node). e.0) entries)
    → Memᴰ (name, x) entries
    → lookup entries name ≡ some x
unfolding lookup
lookup_listed [] name x d m = elim m [ ]
lookup_listed ((k, y) ∷ entries) name x (f, d) (head e) =
    let q : bytes_eq k name ≡ true =
      (bytes_eq_iff k name).1 (sym (ap (λ (z : Bytes × Node). z.0) e)) in
    rw (q, lookup) (ap some (sym (ap (λ (z : Bytes × Node). z.1) e)))
lookup_listed ((k, y) ∷ entries) name x (f, d) (tail m) =
    rw (apart k name f (named_Memᴰ m), lookup) (lookup_listed entries name x d m)

pub classify_each-IsGrouped :
    (m : DiskMedium) (verify : Bool) (io : Answers) (entries : Dir) (t : Tree) (rec : Recovery)
    (groups : Groups) (acc : List Candidate)
    → Present entries t
    → Distinct (map (λ (e : Bytes × Node). e.0) entries)
    → IsGrouped acc groups
    → IsGrouped
        (kept_onto m verify io entries acc)
        (classify_each m verify io entries t rec groups).2
unfolding classify_each classify kept_onto
classify_each-IsGrouped m verify io [] t rec groups acc p d w = w
classify_each-IsGrouped m verify io ((name, stray) ∷ entries) t rec groups acc p (f, d) w =
    classify_each-IsGrouped m verify io entries t rec groups acc (λ n g l. p n g (tail l)) d w
classify_each-IsGrouped m verify io ((name, directory files) ∷ entries) t rec groups acc p (f, d)
      w =
    let x = fate m verify (io name) name files in
    let q : files_in t name ≡ files = ap node_files (p name files (head refl)) in
    let r : classify m verify (io name) name t rec ≡ disposed (io name) name x t rec =
      ap (λ k. disposed (io name) name (fate m verify (io name) name k) t rec) q in
    let s = disposed (io name) name x t rec in
    subst
      (λ (c : Tree × Recovery × Option Candidate).
        IsGrouped (kept_onto m verify io entries (add_kept x acc))
          (classify_each m verify io entries c.0 c.1 (join c.2 groups)).2)
      (sym r)
      (classify_each-IsGrouped m verify io entries s.0 s.1 (join s.2 groups) (add_kept x acc)
        (λ n g l.
          disposed_others (io name) name n x t rec (apart name n f (named_Memᴰ l)) ∙ p n g (tail l))
        d (disposed_kept (io name) name x t rec acc groups w))
