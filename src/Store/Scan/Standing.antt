-- ===== src/Store/Scan/Standing.antt =====
-- store/recovery.go (`scan`): the directories of the candidates stand through the first loop, and
-- those of the winners through the second.
use mathlib.Core.List.{Memᴰ}
use mathlib.Core.List.Memᴰ.{head, tail}
use buff.Common.{
  ◌≡◌, refl, sym, ap, subst, ◌∙◌, ◌⊎◌, inl, inr, Bool, false, Option, some, List, [], ◌∷◌, Bytes,
  bytes_eq, map,
}
use buff.Store.GenId.{id_string}
use buff.Store.Recovery.{parsed_canonical}
use buff.Store.Disk.Commit.{DiskMedium}
use buff.Store.Disk.Crash.{Files}
use buff.Store.Scan.{Answers, classify, classify_each, disposed, join}
use buff.Store.Scan.Directory.{
  Node, directory, stray, Dir, Tree, Recovery, lookup, files_in, node_files,
}
use buff.Store.Scan.Classify.{Candidate, Fate, keep, set_aside, collect, fate}
use buff.Store.Scan.Classify.Sound.{fate-IsSound}
use buff.Store.Scan.ByName.{Groups}
use buff.Store.Scan.Grouping.{Distinct}
use buff.Store.Scan.Classified.{kept_onto, add_kept, Present, disposed_others, named_Memᴰ, apart}

-- A candidate's directory: an entry of the listing that is kept as this candidate, and it is there.
pub record Stands (m : DiskMedium) (verify : Bool) (io : Answers) (entries : Dir) (u : Tree)
    (c : Candidate) : Type 0 where
  pub files : Files
  pub listed : Memᴰ (id_string c.id, directory files) entries
  pub sound : fate m verify (io (id_string c.id)) (id_string c.id) files ≡ keep c
  pub there : lookup u.clips (id_string c.id) ≡ some (directory files)

-- The first loop leaves a directory that it does not list.
classify_each_others :
    (m : DiskMedium) (verify : Bool) (io : Answers) (entries : Dir) (t : Tree) (rec : Recovery)
    (groups : Groups) (name : Bytes)
    → ¬ Memᴰ name (map (λ (e : Bytes × Node). e.0) entries)
    → lookup (classify_each m verify io entries t rec groups).0.clips name ≡ lookup t.clips name
unfolding classify_each classify
classify_each_others m verify io [] t rec groups name n = refl
classify_each_others m verify io ((k, stray) ∷ entries) t rec groups name n =
    classify_each_others m verify io entries t rec groups name (λ l. n (tail l))
classify_each_others m verify io ((k, directory f) ∷ entries) t rec groups name n =
    let x = fate m verify (io k) k (files_in t k) in
    let s = disposed (io k) k x t rec in
    let b : bytes_eq k name ≡ false =
      apart k name {names = name ∷ []}
        (λ m. elim m [ head e ↦ n (head (sym e)) | tail l ↦ elim l [ ] ]) (head refl) in
    classify_each_others m verify io entries s.0 s.1 (join s.2 groups) name (λ l. n (tail l))
    ∙ disposed_others (io k) k name x t rec b

added_kept :
    (x : Fate) (c : Candidate) (acc : List Candidate)
    → Memᴰ c (add_kept x acc)
    → (x ≡ keep c) ⊎ Memᴰ c acc
added_kept (keep d) c acc (head e) = inl (ap keep (sym e))
added_kept (keep d) c acc (tail m) = inr m
added_kept (set_aside reason) c acc m = inr m
added_kept collect c acc m = inr m

listed_later :
    {m : DiskMedium} {verify : Bool} {io : Answers} {entries : Dir} {u : Tree} {c : Candidate}
    (e : Bytes × Node)
    → Stands m verify io entries u c
    → Stands m verify io (e ∷ entries) u c
listed_later e w = record {
  files = w.files;
  listed = tail w.listed;
  sound = w.sound;
  there = w.there;
}

-- An entry that is kept stands after the loop over the later ones.
kept-Stands :
    (m : DiskMedium) (verify : Bool) (io : Answers) (name : Bytes) (files : Files) (entries : Dir)
    (u : Tree) (c : Candidate)
    → fate m verify (io name) name files ≡ keep c
    → lookup u.clips name ≡ some (directory files)
    → Stands m verify io ((name, directory files) ∷ entries) u c
kept-Stands m verify io name files entries u c e l =
    let q : name ≡ id_string c.id =
      parsed_canonical name c.id (fate-IsSound m verify (io name) name files c e).own_name in
    record {
      files = files;
      listed = head (ap (λ k. (k, directory files)) (sym q));
      sound = subst (λ k. fate m verify (io k) k files ≡ keep c) q e;
      there = subst (λ k. lookup u.clips k ≡ some (directory files)) q l;
    }

pub classify_each-Stands :
    (m : DiskMedium) (verify : Bool) (io : Answers) (entries : Dir) (t : Tree) (rec : Recovery)
    (groups : Groups) (acc : List Candidate) (c : Candidate)
    → Present entries t
    → Distinct (map (λ (e : Bytes × Node). e.0) entries)
    → Memᴰ c (kept_onto m verify io entries acc)
    → Memᴰ c acc ⊎ Stands m verify io entries (classify_each m verify io entries t rec groups).0 c
unfolding classify_each classify kept_onto
classify_each-Stands m verify io [] t rec groups acc c p d k = inl k
classify_each-Stands m verify io ((name, stray) ∷ entries) t rec groups acc c p (f, d) k =
    elim (classify_each-Stands m verify io entries t rec groups acc c (λ n g l. p n g (tail l)) d
      k) [ inl n ↦ inl n | inr w ↦ inr (listed_later (name, stray) w) ]
classify_each-Stands m verify io ((name, directory files) ∷ entries) t rec groups acc c p (f, d) k =
    let x = fate m verify (io name) name files in
    let here = p name files (head refl) in
    let s = disposed (io name) name x t rec in
    let later : Present entries s.0 = λ n g l.
      disposed_others (io name) name n x t rec (apart name n f (named_Memᴰ l)) ∙ p n g (tail l) in
    let r : classify m verify (io name) name t rec ≡ s =
      ap (λ o. disposed (io name) name (fate m verify (io name) name (node_files o)) t rec) here in
    let P = λ (z : Tree × Recovery × Option Candidate).
      Memᴰ c acc
      ⊎ Stands m verify io ((name, directory files) ∷ entries)
          (classify_each m verify io entries z.0 z.1 (join z.2 groups)).0 c in
    subst P (sym r)
      (elim (classify_each-Stands m verify io entries s.0 s.1 (join s.2 groups) (add_kept x acc) c
        later d k) [
          | inr w ↦ inr (listed_later (name, directory files) w)
          | inl n ↦ elim (added_kept x c acc n) [
            | inr a ↦ inl a
            | inl e ↦ inr (
                kept-Stands m verify io name files entries _ c e (
                  classify_each_others m verify io entries s.0 s.1 (join s.2 groups) name f
                  ∙ ap (λ y. lookup (disposed (io name) name y t rec).0.clips name) e
                  ∙ here))
          ]
        ])
