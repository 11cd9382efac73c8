-- ===== src/Store/Outcomes/Listing.antt =====
-- `store.List`: exactly the present values of the names.
use mathlib.Core.List.{Memᴰ}
use mathlib.Core.List.Memᴰ.{head, tail}
use buff.Common.{ℕ, ◌≡◌, refl, ◌↔◌, Option, none, some, List, [], ◌∷◌, subst, sym}
use buff.Clip.Meta.{Clip}
use buff.Store.Generation.{clip_of}
use buff.Store.State.{Store, snapshot}
use buff.Store.Resolve.{
  present_current, present_current_sound, present_current_complete, IsCurrentValue,
}
use buff.Store.Manage.{list, clips_at, add_clip}

-- The clip is that of the present value of one of these handles.
abbrev pub IsShown : Store → ℕ → List ℕ → Clip → Type 0
IsShown s now hs c =
    (h : ℕ) × (g : ℕ) × Memᴰ h hs × IsCurrentValue s h now g × (c ≡ clip_of (s.heap g))

IsShown-cons :
    (s : Store) (now h : ℕ) (hs : List ℕ) (c : Clip) → IsShown s now hs c → IsShown s now (h ∷ hs) c
IsShown-cons s now h hs c (j, g, m, v, e) = (j, g, tail m, v, e)

added_sound :
    (s : Store) (now h : ℕ) (hs : List ℕ) (c : Clip) (o : Option ℕ) (rest : List Clip)
    → present_current s h now ≡ o
    → (Memᴰ c rest → IsShown s now hs c)
    → Memᴰ c (add_clip s o rest)
    → IsShown s now (h ∷ hs) c
added_sound s now h hs c none rest p f m = IsShown-cons s now h hs c (f m)
added_sound s now h hs c (some g) rest p f (head e) =
    (h, g, head refl, present_current_sound s h now g p, e)
added_sound s now h hs c (some g) rest p f (tail m) = IsShown-cons s now h hs c (f m)

clips_at_sound :
    (s : Store) (now : ℕ) (hs : List ℕ) (c : Clip) → Memᴰ c (clips_at s now hs) → IsShown s now hs c
unfolding clips_at
clips_at_sound s now [] c m = elim m [ ]
clips_at_sound s now (h ∷ hs) c m =
    added_sound s now h hs c (present_current s h now) (clips_at s now hs) refl
      (clips_at_sound s now hs c) m

kept_clip :
    (s : Store) (c : Clip) (o : Option ℕ) (rest : List Clip)
    → Memᴰ c rest
    → Memᴰ c (add_clip s o rest)
kept_clip s c none rest m = m
kept_clip s c (some g) rest m = tail m

clips_at_complete :
    (s : Store) (now h g : ℕ) (hs : List ℕ)
    → Memᴰ h hs
    → IsCurrentValue s h now g
    → Memᴰ (clip_of (s.heap g)) (clips_at s now hs)
unfolding clips_at
clips_at_complete s now h g [] m v = elim m [ ]
clips_at_complete s now h g (j ∷ hs) (head e) (a, b, d) =
    let p : present_current s j now ≡ some g =
      subst (λ i. present_current s i now ≡ some g) e (present_current_complete s h now g a b d) in
    rw (p, clips_at) (head refl)
clips_at_complete s now h g (j ∷ hs) (tail m) v =
    kept_clip s (clip_of (s.heap g)) (present_current s j now) (clips_at s now hs)
      (clips_at_complete s now h g hs m v)

-- A clip is listed exactly when it is the one of a handle of the registry whose current generation
-- is finalized and not past its deadline: no live log, no claimed secret and no expired value is
-- listed, and no present value is left out.
pub list_iff : (s : Store) (now : ℕ) (c : Clip) → Memᴰ c (list s now) ↔ IsShown s now (snapshot s) c
unfolding list
list_iff s now c = (
  clips_at_sound s now (snapshot s) c,
  λ w.
      subst (λ d. Memᴰ d (clips_at s now (snapshot s))) (sym w.4)
        (clips_at_complete s now w.0 w.1 (snapshot s) w.2 w.3),
)
