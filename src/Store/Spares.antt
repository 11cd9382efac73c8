-- ===== src/Store/Spares.antt =====
-- What an operation leaves to the writers of other generations: their handles still point to the
-- live generation, and its cell is as it was.
pub mod Sweep
use buff.Common.{
  ℕ, suc, ◌+◌, ◌≤◌, ◌<◌, ◌≡◌, refl, ◌≢◌, sym, ◌∙◌, Bool, true, false, Option, none, some, Bytes,
  arith, if◌then◌else◌, ◌==◌, subst,
}
use buff.Store.Generation.{Generation, live, finalized}
use buff.Store.State.{
  Store, Handle, update, put_handle, put_gen, acquire, release_handle, find_handle, or_new,
  new_handle,
}
use buff.Store.Gate.{wake_locked, wake_if}
use buff.Store.Reclaim.{reclaim}
use buff.Store.Reaper.{reclaim_some}

pub record Spares (s t : Store) : Type 0 where
  pub next_le : s.next_handle ≤ t.next_handle
  pub live_same : (h : ℕ) → h < s.next_handle → (t.handles h).live ≡ (s.handles h).live
  pub gen_same : (g : ℕ) → (s.heap g).state ≡ live → t.heap g ≡ s.heap g

pub Spares-refl : (s : Store) → Spares s s
Spares-refl s = record { next_le = omega arith; live_same = λ h l. refl; gen_same = λ g e. refl }

pub Spares-trans : {s t u : Store} → Spares s t → Spares t u → Spares s u
Spares-trans {s} {t} {u} a b = record {
  next_le = omega (arith, a.next_le, b.next_le);
  live_same = λ h l. b.live_same h (omega (arith, a.next_le)) ∙ a.live_same h l;
  gen_same = λ g e.
      b.gen_same g (subst (λ (c : Generation). c.state ≡ live) (sym (a.gen_same g e)) e)
      ∙ a.gen_same g e;
}

or_new-Spares : (s : Store) (found : Option ℕ) (name : Bytes) → Spares s (or_new found s name).0
or_new-Spares s none name = record {
  next_le = omega arith;
  live_same = λ h l. ground arith;
  gen_same = λ g e. refl;
}
or_new-Spares s (some a) name = record {
  next_le = omega arith;
  live_same = λ h l. ground arith;
  gen_same = λ g e. refl;
}

pub acquire-Spares : (s : Store) (name : Bytes) → Spares s (acquire s name).0
unfolding acquire
acquire-Spares s name = or_new-Spares s (find_handle name s.table) name

pub release_handle-Spares : (s : Store) (h : ℕ) → Spares s (release_handle s h)
unfolding release_handle
release_handle-Spares s h = record {
  next_le = ground arith;
  live_same = λ j l. ground arith;
  gen_same = λ g e. ground arith;
}

pub wake_if-Spares : (wake : Bool) (s : Store) (h : ℕ) → Spares s (wake_if wake s h)
unfolding wake_locked
wake_if-Spares false s h = Spares-refl s
wake_if-Spares true s h = record {
  next_le = omega arith;
  live_same = λ j l. ground arith;
  gen_same = λ g e. refl;
}

pub drop_current-Spares :
    (s : Store) (h : ℕ) → Spares s (put_handle s h (record (s.handles h) { current = none }))
drop_current-Spares s h = record {
  next_le = omega arith;
  live_same = λ j l. ground arith;
  gen_same = λ g e. refl;
}

-- A change of one cell that is not live.
pub put_gen-Spares :
    (s : Store) (g : ℕ) (v : Generation) → (s.heap g).state ≢ live → Spares s (put_gen s g v)
put_gen-Spares s g v h = record {
  next_le = omega arith;
  live_same = λ j l. refl;
  gen_same = λ c e. ground arith;
}

pub reclaim-Spares : (s : Store) (g : ℕ) → (s.heap g).state ≢ live → Spares s (reclaim s g)
unfolding reclaim
reclaim-Spares s g h = record {
  next_le = omega arith;
  live_same = λ j l. refl;
  gen_same = λ c e. ground arith;
}

-- What is handed over to be reclaimed is not live.
abbrev pub NotLive : Store → Option ℕ → Type 0
NotLive s none = Unit {0}
NotLive s (some g) = (s.heap g).state ≢ live

pub reclaim_some-Spares :
    (s : Store) (prev : Option ℕ) → NotLive s prev → Spares s (reclaim_some s prev)
reclaim_some-Spares s none n = Spares-refl s
reclaim_some-Spares s (some g) n = reclaim-Spares s g n
