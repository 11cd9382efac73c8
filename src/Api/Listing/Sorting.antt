-- ===== src/Api/Listing/Sorting.antt =====
-- The order of a listing.
use mathlib.Core.List.{map, Perm}
use mathlib.Core.List.Perm
use buff.Common.{ℕ, ◌≡◌, refl, true, false, List, [], ◌∷◌, Bytes, arith, if_elim}
use buff.Store.State.{Store}
use buff.Store.Manage.{list}
use buff.Wire.Responses.{Clock}
use buff.Api.Listing.{WireClip, to_wire, bytes_leb, insert_by_name, sort_by_name, listed}

-- Each name is at most the next.
abbrev pub IsSorted : List WireClip → Type 0
IsSorted [] = Unit {0}
IsSorted (c ∷ []) = Unit {0}
IsSorted (c ∷ d ∷ ds) = (bytes_leb c.name d.name ≡ true) × IsSorted (d ∷ ds)

leb_total : (s t : Bytes) → bytes_leb s t ≡ false → bytes_leb t s ≡ true
unfolding bytes_leb
leb_total [] t e = cc
leb_total (a ∷ s) [] e = refl
leb_total (a ∷ s) (b ∷ t) e = ground (arith, leb_total s t)

insert-IsSorted :
    (c d : WireClip) (ds : List WireClip)
    → bytes_leb d.name c.name ≡ true
    → IsSorted (d ∷ ds)
    → IsSorted (d ∷ insert_by_name c ds)
unfolding insert_by_name
insert-IsSorted c d [] e v = (e, tt)
insert-IsSorted c d (x ∷ xs) e (l, v) =
    if_elim (λ (r : List WireClip). IsSorted (d ∷ r)) (bytes_leb c.name x.name) _ _
      (λ f. (e, (f, v))) (λ f. (l, insert-IsSorted c x xs (leb_total c.name x.name f) v))

first-IsSorted : (c : WireClip) (ds : List WireClip) → IsSorted ds → IsSorted (insert_by_name c ds)
unfolding insert_by_name
first-IsSorted c [] v = tt
first-IsSorted c (d ∷ ds) v =
    if_elim IsSorted (bytes_leb c.name d.name) _ _ (λ f. (f, v))
      (λ f. insert-IsSorted c d ds (leb_total c.name d.name f) v)

sort-IsSorted : (cs : List WireClip) → IsSorted (sort_by_name cs)
unfolding sort_by_name
sort-IsSorted [] = tt
sort-IsSorted (c ∷ cs) = first-IsSorted c (sort_by_name cs) (sort-IsSorted cs)

insert-Perm : (c : WireClip) (ds : List WireClip) → Perm (insert_by_name c ds) (c ∷ ds)
unfolding insert_by_name
insert-Perm c [] = Perm.rfl
insert-Perm c (d ∷ ds) =
    if_elim (λ (r : List WireClip). Perm r (c ∷ d ∷ ds)) (bytes_leb c.name d.name) _ _
      (λ f. Perm.rfl) (λ f. Perm.trans (Perm.cons d (insert-Perm c ds)) (Perm.swap c d ds))

sort-Perm : (cs : List WireClip) → Perm (sort_by_name cs) cs
unfolding sort_by_name
sort-Perm [] = Perm.rfl
sort-Perm (c ∷ cs) = Perm.trans (insert-Perm c (sort_by_name cs)) (Perm.cons c (sort-Perm cs))

-- The clips of a listing are the clips that the store lists, each as often as there and shown as
-- `toWire` shows it, in the order of their names, byte by byte.
pub listed_lem :
    (k : Clock) (s : Store) (now : ℕ)
    → Perm (listed k s now) (map (to_wire k) (list s now)) × IsSorted (listed k s now)
unfolding listed
listed_lem k s now =
    let shown = map (to_wire k) (list s now) in (sort-Perm shown, sort-IsSorted shown)
