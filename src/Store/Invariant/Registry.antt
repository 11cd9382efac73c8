-- ===== src/Store/Invariant/Registry.antt =====
-- The registry, the gate and a retirement add no pointer.
use buff.Common.{
  ℕ, ◌≡◌, refl, Bool, true, false, Option, none, some, Bytes, arith, inl, inr, Bool-cases,
}
use buff.Store.Generation.{finalized}
use buff.Store.State.{Store, put_handle, acquire, release_handle, find_handle, or_new, new_handle}
use buff.Store.Medium.{Medium}
use buff.Store.Gate.{wake_locked, wake_if}
use buff.Store.Reclaim.{retire}
use buff.Store.Invariant.{Inv, Drops, Drops-Inv, IsLoose, AreLoose}

or_new-Drops : (s : Store) (found : Option ℕ) (name : Bytes) → Drops s (or_new found s name).0
unfolding new_handle
or_new-Drops s none name = record {
  same_heap = refl;
  same_next = refl;
  same_bytes = refl;
  same_clips = refl;
  current_kept = λ h g e. ground arith;
  live_kept = λ h g e. ground arith;
}
or_new-Drops s (some a) name = record {
  same_heap = refl;
  same_next = refl;
  same_bytes = refl;
  same_clips = refl;
  current_kept = λ h g e. ground arith;
  live_kept = λ h g e. ground arith;
}

pub acquire-Drops : (s : Store) (name : Bytes) → Drops s (acquire s name).0
unfolding acquire
acquire-Drops s name = or_new-Drops s (find_handle name s.table) name

pub release_handle-Drops : (s : Store) (h : ℕ) → Drops s (release_handle s h)
unfolding release_handle
release_handle-Drops s h = record {
  same_heap = ground arith;
  same_next = ground arith;
  same_bytes = ground arith;
  same_clips = ground arith;
  current_kept = λ j g e. ground arith;
  live_kept = λ j g e. ground arith;
}

pub wake_if-Drops : (wake : Bool) (s : Store) (h : ℕ) → Drops s (wake_if wake s h)
unfolding wake_locked
wake_if-Drops false s h = record {
  same_heap = refl;
  same_next = refl;
  same_bytes = refl;
  same_clips = refl;
  current_kept = λ j g e. e;
  live_kept = λ j g e. e;
}
wake_if-Drops true s h = record {
  same_heap = refl;
  same_next = refl;
  same_bytes = refl;
  same_clips = refl;
  current_kept = λ j g e. ground arith;
  live_kept = λ j g e. ground arith;
}

pub drop_current-Drops :
    (s : Store) (h : ℕ) → Drops s (put_handle s h (record (s.handles h) { current = none }))
drop_current-Drops s h = record {
  same_heap = refl;
  same_next = refl;
  same_bytes = refl;
  same_clips = refl;
  current_kept = λ j g e. ground arith;
  live_kept = λ j g e. ground arith;
}

-- A finalized value that its handle lets go of is loose.
drop_current-IsLoose :
    (s : Store) (h g : ℕ)
    → (s.handles h).current ≡ some g
    → (s.heap g).state ≡ finalized
    → Inv s
    → IsLoose (put_handle s h (record (s.handles h) { current = none })) g
drop_current-IsLoose s h g e f v = record {
  allocated = (v.current_gen h g e).0;
  homed = (v.current_gen h g e).2 f;
  no_current = λ j c. ground (arith, v.current_once h j g e);
  no_live = λ j c. ground (arith, v.live_gen j g);
}

pub retire-Inv :
    (k : Medium) (s : Store) (h g : ℕ)
    → (s.handles h).current ≡ some g
    → (s.heap g).state ≡ finalized
    → Inv s
    → Inv (retire k s h g).0 × AreLoose (retire k s h g).0 (retire k s h g).1
unfolding retire
retire-Inv k s h g e f v = elim (Bool-cases (k.unpublish (s.heap g)).0) [
  | inl c ↦ rw (c, retire) (Drops-Inv (drop_current-Drops s h) v, drop_current-IsLoose s h g e f v)
  | inr c ↦ rw (c, retire) (v, tt)
]
