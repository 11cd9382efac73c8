-- ===== src/Store/Scan/Contest.antt =====
-- store/recovery.go (`scan`): each name has one survivor, its newest sound generation.
use mathlib.Core.List.{Memᴰ, append_assoc, append-nil}
use mathlib.Core.List.Memᴰ.{head, tail}
use buff.Common.{
  ◌≡◌, refl, sym, ap, subst, ◌∙◌, inl, inr, Bool, false, none, List, [], ◌∷◌, ◌++◌, Bytes, map,
}
use buff.Store.GenId.{is_after, id_string}
use buff.Store.Restore.{Recovered}
use buff.Store.Disk.Commit.{DiskMedium}
use buff.Store.Scan.{
  Answers, classify_each, discard_others, to_recovered, keep_each, scan_disk, nothing_yet,
}
use buff.Store.Scan.Directory.{Node, directory, Tree, Recovery, lookup}
use buff.Store.Scan.Classify.{Candidate}
use buff.Store.Scan.ByName.{Groups, newest}
use buff.Store.Scan.Grouping.{Group, members, names, Distinct, Distinct-group, IsGrouped}
use buff.Store.Scan.Classified.{kept_onto, Present, classify_each-IsGrouped, lookup_listed}
use buff.Store.Scan.Standing.{Stands, classify_each-Stands}
use buff.Store.Scan.Sparing.{Spared, discard_others_spares, keep_each_spares, winner-Spared}
use buff.Store.Scan.Survivors.{
  winner, winner-Memᴰ, winner-IsNewest, IsFrom, IsFrom-name, classify_each_survivors,
  discard_others_survivors,
}

-- The survivors are the winners of the groups, in their order.
data AreWinners (start : Tree) : List Recovered → Groups → Type 0 where
  nobody : AreWinners start [] []
  another :
      (r : Recovered) (g : Group) (survivors : List Recovered) (groups : Groups)
      → IsFrom start r (winner g)
      → AreWinners start survivors groups
      → AreWinners start (r ∷ survivors) (g ∷ groups)

abbrev Untouched : Tree → Tree → Candidate → Type 0
Untouched start t c = lookup t.clips (id_string c.id) ≡ lookup start.clips (id_string c.id)

keep_each-AreWinners :
    (io : Answers) (start : Tree) (groups : Groups) (t : Tree) (rec : Recovery)
    → ((g : Group) → Memᴰ g groups → Spared groups (id_string (winner g).id))
    → ((g : Group) → Memᴰ g groups → Untouched start t (winner g))
    → (w : List Recovered) × ((keep_each io groups t rec).1.survivors ≡ rec.survivors ++ w)
      × AreWinners start w groups
unfolding keep_each
keep_each-AreWinners io start [] t rec p q = ([], sym (append-nil rec.survivors), nobody)
keep_each-AreWinners io start ((name, first, rest) ∷ groups) t rec p q =
    let k = newest first rest in
    let (t', rec') = discard_others io k.id (first ∷ rest) t rec in
    let r = to_recovered t' k in
    let intact : (g : Group)
        → Memᴰ g ((name, first, rest) ∷ groups)
        → Untouched start t' (winner g) =
      λ g m.
        discard_others_spares io k.id (first ∷ rest) t rec (id_string (winner g).id)
          (λ c. p g m (name, first, rest) c (head refl))
        ∙ q g m in
    let (w, e, a) =
      keep_each-AreWinners io start groups t' (record rec' { survivors = rec'.survivors ++ r ∷ [] })
        (λ g m h c n. p g (tail m) h c (tail n)) (λ g m. intact g (tail m)) in
    let z : rec'.survivors ≡ rec.survivors =
      discard_others_survivors io k.id (first ∷ rest) t rec in
    (
      r ∷ w,
      e ∙ ap (λ s. (s ++ r ∷ []) ++ w) z ∙ append_assoc rec.survivors (r ∷ []) w,
      another r (name, first, rest) w groups (t', refl, intact (name, first, rest) (head refl)) a,
    )

winner_of :
    {start : Tree} {r : Recovered} {survivors : List Recovered} {groups : Groups}
    → AreWinners start survivors groups
    → Memᴰ r survivors
    → (g : Group) × Memᴰ g groups × IsFrom start r (winner g)
winner_of nobody m = elim m [ ]
winner_of {start} (another s g survivors groups f a) (head e) =
    (g, head refl, subst (λ x. IsFrom start x (winner g)) (sym e) f)
winner_of (another s g survivors groups f a) (tail m) =
    let (h, n, k) = winner_of a m in (h, tail n, k)

survivor_of :
    {start : Tree} {g : Group} {survivors : List Recovered} {groups : Groups}
    → AreWinners start survivors groups
    → Memᴰ g groups
    → (r : Recovered) × Memᴰ r survivors × IsFrom start r (winner g)
survivor_of nobody m = elim m [ ]
survivor_of {start} (another r h survivors groups f a) (head e) =
    (r, head refl, subst (λ x. IsFrom start r (winner x)) (sym e) f)
survivor_of (another r h survivors groups f a) (tail m) =
    let (s, n, k) = survivor_of a m in (s, tail n, k)

abbrev pub names_of : List Recovered → List Bytes
names_of survivors = map (λ (r : Recovered). r.name) survivors

winners_names :
    {start : Tree} {survivors : List Recovered} {groups : Groups}
    → AreWinners start survivors groups
    → ((g : Group) → Memᴰ g groups → (winner g).mf.name ≡ g.0)
    → names_of survivors ≡ names groups
winners_names nobody n = refl
winners_names {start} (another r g survivors groups f a) n =
    let e : r.name ≡ g.0 = IsFrom-name start r (winner g) f ∙ n g (head refl) in
    let q = winners_names a (λ h m. n h (tail m)) in
    ap (λ x. x ∷ names_of survivors) e ∙ ap (λ s. g.0 ∷ s) q

-- One survivor for each name that a candidate has, made from a candidate of this name that none of
-- this name sorts after, out of a directory that is there as before.
pub record IsContest (m : DiskMedium) (verify : Bool) (io : Answers) (t u : Tree)
    (cs : List Candidate) (survivors : List Recovered) : Type 0 where
  pub won :
      (r : Recovered)
      → Memᴰ r survivors
      → (c : Candidate) × Memᴰ c cs
        × IsFrom t r c
        × Stands m verify io t.clips u c
        × ((d : Candidate) → Memᴰ d cs → d.mf.name ≡ c.mf.name → is_after d.id c.id ≡ false)
  pub served :
      (d : Candidate) → Memᴰ d cs → (r : Recovered) × Memᴰ r survivors × (r.name ≡ d.mf.name)
  pub once : Distinct (names_of survivors)

contested :
    {m : DiskMedium} {verify : Bool} {io : Answers} {t u : Tree} {cs : List Candidate}
    {survivors : List Recovered} {groups : Groups}
    → IsGrouped cs groups
    → AreWinners t survivors groups
    → ((g : Group) → Memᴰ g groups → Stands m verify io t.clips u (winner g))
    → IsContest m verify io t u cs survivors
contested {t = t} {groups = groups} w a stands =
    let own : (g : Group) → Memᴰ g groups → (winner g).mf.name ≡ g.0 =
      λ g m. (w.sound g (winner g) m (winner-Memᴰ g)).1 in
    record {
      won = λ r m.
          let (g, n, f) = winner_of a m in
          (
            winner g,
            (w.sound g (winner g) n (winner-Memᴰ g)).0,
            f,
            stands g n,
            λ d l e.
                let (h, k, p) = w.complete d l in
                let q : g ≡ h =
                  Distinct-group w.distinct n k (sym (own g n) ∙ sym e ∙ (w.sound h d k p).1) in
                winner-IsNewest g d (subst (λ x. Memᴰ d (members x)) (sym q) p),
          );
      served = λ d m.
          let (g, n, p) = w.complete d m in
          let (r, k, f) = survivor_of a n in
          (r, k, IsFrom-name t r (winner g) f ∙ own g n ∙ sym (w.sound g d n p).1);
      once = subst Distinct (sym (winners_names a own)) w.distinct;
    }

no_groups : IsGrouped [] []
no_groups = record { sound = λ g c m. elim m [ ]; complete = λ c m. elim m [ ]; distinct = tt }

-- Each name has one survivor, its newest. If clips/ can be listed and no two of its entries have one
-- name, the scan gives no two survivors of one name; every candidate, which is a directory that is
-- kept by itself, has a survivor of its name; and every survivor was made from a candidate that no
-- candidate of its name sorts after, whose directory the scan leaves as it was. Faults of the
-- removals and moves do not change that.
pub scan_disk-IsContest :
    (m : DiskMedium) (verify : Bool) (io : Answers) (t : Tree)
    → Distinct (map (λ (e : Bytes × Node). e.0) t.clips)
    → let r = scan_disk m verify none io t in
      (rec : Recovery) × (r.1 ≡ inl rec)
      × IsContest m verify io t r.0 (kept_onto m verify io t.clips []) rec.survivors
unfolding scan_disk
scan_disk-IsContest m verify io t d =
    let (t', rec, groups) = classify_each m verify io t.clips t nothing_yet [] in
    let cs = kept_onto m verify io t.clips [] in
    let present : Present t.clips t = λ name f l. lookup_listed t.clips name (directory f) d l in
    let g = classify_each-IsGrouped m verify io t.clips t nothing_yet [] [] present d no_groups in
    let standing : (c : Candidate) → Memᴰ c cs → Stands m verify io t.clips t' c = λ c k.
      elim (classify_each-Stands m verify io t.clips t nothing_yet [] [] c present d k) [
        | inl n ↦ elim n [ ]
        | inr w ↦ w
      ] in
    let of_winner : (h : Group) → Memᴰ h groups → Stands m verify io t.clips t' (winner h) =
      λ h n. standing (winner h) (g.sound h (winner h) n (winner-Memᴰ h)).0 in
    let spared : (h : Group) → Memᴰ h groups → Spared groups (id_string (winner h).id) =
      λ h n. winner-Spared h g standing n in
    let (w, e, a) = keep_each-AreWinners io t groups t' rec spared (λ h n.
      let v = of_winner h n in
      v.there ∙ sym (present (id_string (winner h).id) v.files v.listed)) in
    let none_yet : rec.survivors ≡ [] =
      classify_each_survivors m verify io t.clips t nothing_yet [] in
    let q : (keep_each io groups t' rec).1.survivors ≡ w = e ∙ ap (λ s. s ++ w) none_yet in
    let u = (keep_each io groups t' rec).0 in
    let kept : (h : Group) → Memᴰ h groups → Stands m verify io t.clips u (winner h) = λ h n.
      let v = of_winner h n in
      record {
        files = v.files;
        listed = v.listed;
        sound = v.sound;
        there = keep_each_spares io groups t' rec (id_string (winner h).id) (spared h n) ∙ v.there;
      } in
    (
      (keep_each io groups t' rec).1,
      refl,
      subst (IsContest m verify io t u cs) (sym q) (contested g a kept),
    )
