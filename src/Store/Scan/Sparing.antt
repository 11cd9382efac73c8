-- ===== src/Store/Scan/Sparing.antt =====
-- store/recovery.go (`scan`): the second loop discards the losers, and no winner's directory.
use mathlib.Core.List.{Memᴰ}
use mathlib.Core.List.Memᴰ.{head, tail}
use buff.Common.{
  ◌≡◌, refl, sym, ap, subst, ◌∙◌, inl, inr, Bool, true, false, not, List, [], ◌∷◌, ◌++◌, Bytes,
  bytes_eq, bytes_eq_sound, if_elim, Bool-cases, arith, if◌then◌else◌,
}
use buff.Store.GenId.{GenId, id_string, id_eq}
use buff.Store.Disk.Commit.{DiskMedium}
use buff.Store.Scan.{Answers, discard_others, keep_each, to_recovered}
use buff.Store.Scan.Directory.{Dir, Tree, Recovery, lookup, node_files, remove_gen_dir}
use buff.Store.Scan.Classify.{Candidate, fate}
use buff.Store.Scan.Classify.Sound.{keep_inj}
use buff.Store.Scan.ByName.{Groups, newest}
use buff.Store.Scan.Grouping.{Group, members, Distinct-group, IsGrouped}
use buff.Store.Scan.Classified.{remove_gen_dir_others}
use buff.Store.Scan.Survivors.{winner, winner-Memᴰ}
use buff.Store.Scan.Standing.{Stands}

-- No loser of these groups has its directory at this name.
abbrev pub Spared : Groups → Bytes → Type 0
Spared groups name =
    (g : Group) (c : Candidate)
    → Memᴰ g groups
    → Memᴰ c (members g)
    → id_eq c.id (winner g).id ≡ false
    → bytes_eq (id_string c.id) name ≡ false

pub discard_others_spares :
    (io : Answers) (id : GenId) (cs : List Candidate) (t : Tree) (rec : Recovery) (name : Bytes)
    → ((c : Candidate) → Memᴰ c cs → id_eq c.id id ≡ false → bytes_eq (id_string c.id) name ≡ false)
    → lookup (discard_others io id cs t rec).0.clips name ≡ lookup t.clips name
unfolding discard_others
discard_others_spares io id [] t rec name s = refl
discard_others_spares io id (c ∷ cs) t rec name s =
    let gone = remove_gen_dir (io (id_string c.id)) (id_string c.id) t rec in
    let u = if not (id_eq c.id id) then gone else (t, rec) in
    discard_others_spares io id cs u.0 u.1 name (λ d m. s d (tail m))
    ∙ if_elim (λ (x : Tree × Recovery). lookup x.0.clips name ≡ lookup t.clips name)
        (not (id_eq c.id id)) gone (t, rec)
        (λ b.
          remove_gen_dir_others (io (id_string c.id)) (id_string c.id) name t rec
            (s c (head refl) (ground (arith, b))))
        (λ b. refl)

-- The second loop leaves a directory that is spared.
pub keep_each_spares :
    (io : Answers) (groups : Groups) (t : Tree) (rec : Recovery) (name : Bytes)
    → Spared groups name
    → lookup (keep_each io groups t rec).0.clips name ≡ lookup t.clips name
unfolding keep_each
keep_each_spares io [] t rec name s = refl
keep_each_spares io ((n, first, rest) ∷ groups) t rec name s =
    let k = newest first rest in
    let (t', rec') = discard_others io k.id (first ∷ rest) t rec in
    keep_each_spares io groups t'
      (record rec' { survivors = rec'.survivors ++ to_recovered t' k ∷ [] }) name
      (λ g c m. s g c (tail m))
    ∙ discard_others_spares io k.id (first ∷ rest) t rec name
        (λ c. s (n, first, rest) c (head refl))

-- Two candidates of one directory are one.
one_directory :
    {m : DiskMedium} {verify : Bool} {io : Answers} {entries : Dir} {u : Tree} (c d : Candidate)
    → Stands m verify io entries u c
    → Stands m verify io entries u d
    → id_string c.id ≡ id_string d.id
    → c ≡ d
one_directory {m} {verify} {io} {u = u} c d v w e =
    let same : v.files ≡ w.files =
      ap node_files (sym v.there ∙ ap (λ n. lookup u.clips n) e ∙ w.there) in
    let q : fate m verify (io (id_string c.id)) (id_string c.id) v.files
        ≡ fate m verify (io (id_string d.id)) (id_string d.id) w.files =
      ap (λ n. fate m verify (io n) n v.files) e
      ∙ ap (fate m verify (io (id_string d.id)) (id_string d.id)) same in
    keep_inj c d (sym v.sound ∙ q ∙ w.sound)

id_eq_refl : (i : GenId) → id_eq i i ≡ true
id_eq_refl i = ground arith

-- If every candidate has its directory, the directory of a winner is spared by all the groups.
pub winner-Spared :
    {m : DiskMedium} {verify : Bool} {io : Answers} {entries : Dir} {u : Tree} {cs : List Candidate}
    {groups : Groups} (g : Group)
    → IsGrouped cs groups
    → ((c : Candidate) → Memᴰ c cs → Stands m verify io entries u c)
    → Memᴰ g groups
    → Spared groups (id_string (winner g).id)
winner-Spared g w s n h c k l b =
    elim (Bool-cases (bytes_eq (id_string c.id) (id_string (winner g).id))) [
      | inr q ↦ q
      | inl q ↦
          let (a, x) = w.sound h c k l in
          let (i, y) = w.sound g (winner g) n (winner-Memᴰ g) in
          let e : c ≡ winner g =
            one_directory c (winner g) (s c a) (s (winner g) i)
              (bytes_eq_sound (id_string c.id) (id_string (winner g).id) q) in
          let f : h ≡ g =
            Distinct-group w.distinct k n (sym x ∙ ap (λ (z : Candidate). z.mf.name) e ∙ y) in
          let p : id_eq (winner g).id (winner g).id ≡ false =
            subst (λ z. id_eq z.id (winner g).id ≡ false) e
              (subst (λ z. id_eq c.id (winner z).id ≡ false) f b) in
          let r = id_eq_refl (winner g).id in cc
    ]
