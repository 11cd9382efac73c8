-- ===== src/Store/Invariant.antt =====
-- The invariant of a store: what a handle's pointers may point to, and what the counters count.
pub mod Registry
pub mod Sweep
pub mod Admission
pub mod Writing
pub mod Closing
pub mod Reading
pub mod Claiming
use buff.Common.{
  ℕ, ◌+◌, ◌%◌, ◌<◌, ◌≡◌, refl, ◌≢◌, Bool, true, false, Option, none, some, arith, word,
  if◌then◌else◌,
}
use buff.Store.Quota.{Quota, release_gen}
use buff.Store.Generation.{Generation, live, finalized}
use buff.Store.State.{Store, Handle, update, put_gen, put_handle}
use buff.Store.Reclaim.{reclaim}
use buff.Store.Reaper.{reclaim_some}
use buff.Store.Accounting.{total, total-update, held_bytes, held_clips}

-- The values are never live, and have their bytes unless they were claimed; a live generation has
-- its bytes; no two handles share a generation; and the counters are the footprint, as int64 wraps.
pub record Inv (s : Store) : Type 0 where
  pub current_gen :
      (h g : ℕ)
      → (s.handles h).current ≡ some g
      → (g < s.next_gen)
        × ((s.heap g).state ≢ live)
        × ((s.heap g).state ≡ finalized → (s.heap g).home ≡ true)
  pub live_gen :
      (h g : ℕ)
      → (s.handles h).live ≡ some g
      → (g < s.next_gen) × ((s.heap g).state ≡ live) × ((s.heap g).home ≡ true)
  pub current_once :
      (h j g : ℕ) → (s.handles h).current ≡ some g → (s.handles j).current ≡ some g → h ≡ j
  pub live_once : (h j g : ℕ) → (s.handles h).live ≡ some g → (s.handles j).live ≡ some g → h ≡ j
  pub bytes_held : s.quota.bytes ≡ total held_bytes s.heap s.next_gen % word
  pub clips_held : s.quota.clips ≡ total held_clips s.heap s.next_gen % word

-- A change of handles that adds no pointer.
pub record Drops (s t : Store) : Type 0 where
  pub same_heap : t.heap ≡ s.heap
  pub same_next : t.next_gen ≡ s.next_gen
  pub same_bytes : t.quota.bytes ≡ s.quota.bytes
  pub same_clips : t.quota.clips ≡ s.quota.clips
  pub current_kept : (h g : ℕ) → (t.handles h).current ≡ some g → (s.handles h).current ≡ some g
  pub live_kept : (h g : ℕ) → (t.handles h).live ≡ some g → (s.handles h).live ≡ some g

pub Drops-Inv : {s t : Store} → Drops s t → Inv s → Inv t
Drops-Inv {s} {t} d v = record {
  current_gen = λ h g e. rw (d.same_heap, d.same_next) (v.current_gen h g (d.current_kept h g e));
  live_gen = λ h g e. rw (d.same_heap, d.same_next) (v.live_gen h g (d.live_kept h g e));
  current_once = λ h j g e f. v.current_once h j g (d.current_kept h g e) (d.current_kept j g f);
  live_once = λ h j g e f. v.live_once h j g (d.live_kept h g e) (d.live_kept j g f);
  bytes_held = rw (d.same_heap, d.same_next, d.same_bytes) v.bytes_held;
  clips_held = rw (d.same_heap, d.same_next, d.same_clips) v.clips_held;
}

-- No handle points to a generation that has its bytes by right of its value or its writer.
pub record IsLoose (s : Store) (g : ℕ) : Type 0 where
  pub allocated : g < s.next_gen
  pub homed : (s.heap g).home ≡ true
  pub no_current : (h : ℕ) → (s.handles h).current ≡ some g → (s.heap g).state ≢ finalized
  pub no_live : (h : ℕ) → (s.handles h).live ≢ some g

pub reclaim-Inv : (s : Store) (g : ℕ) → IsLoose s g → Inv s → Inv (reclaim s g)
unfolding reclaim
reclaim-Inv s g l v =
    let cell = record (s.heap g) { home = false } in
    record {
      current_gen = λ h c e. ground (arith, v.current_gen h c e, l.no_current h);
      live_gen = λ h c e. ground (arith, v.live_gen h c e, l.no_live h);
      current_once = v.current_once;
      live_once = v.live_once;
      bytes_held =
          ground
            (arith, v.bytes_held, total-update held_bytes s.heap s.next_gen g cell l.allocated);
      clips_held =
          ground
            (arith, v.clips_held, total-update held_clips s.heap s.next_gen g cell l.allocated);
    }

pub Drops-IsLoose : {s t : Store} → Drops s t → (g : ℕ) → IsLoose s g → IsLoose t g
Drops-IsLoose {s} {t} d g l = record {
  allocated = rw d.same_next l.allocated;
  homed = rw d.same_heap l.homed;
  no_current = λ h e. rw d.same_heap (l.no_current h (d.current_kept h g e));
  no_live = λ h e. l.no_live h (d.live_kept h g e);
}

-- What an operation hands over to be reclaimed, if anything.
abbrev pub AreLoose : Store → Option ℕ → Type 0
AreLoose s none = Unit {0}
AreLoose s (some g) = IsLoose s g

pub reclaim_some-Inv :
    (s : Store) (prev : Option ℕ) → AreLoose s prev → Inv s → Inv (reclaim_some s prev)
reclaim_some-Inv s none l v = v
reclaim_some-Inv s (some g) l v = reclaim-Inv s g l v

pub Drops-AreLoose : {s t : Store} (prev : Option ℕ) → Drops s t → AreLoose s prev → AreLoose t prev
Drops-AreLoose none d l = tt
Drops-AreLoose (some g) d l = Drops-IsLoose d g l
