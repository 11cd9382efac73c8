-- ===== src/Store/Invariant/Reading.antt =====
-- `Open`, the reader's `Close`, `Stat` and `Delete` keep the invariant.
use buff.Common.{ℕ, ◌<◌, ◌≡◌, true, false, arith, Option-cases, Bool-cases, inl, inr, Bytes}
use buff.Clip.Name.{valid_name}
use buff.Store.Generation.{consumed}
use buff.Store.State.{Store, acquire}
use buff.Store.Medium.{Medium}
use buff.Store.Gate.{transition, transition_result}
use buff.Store.Resolve.{present_current, present_current_sound}
use buff.Store.Reclaim.{reclaim, cleanup_consumed, points_to}
use buff.Store.Manage.{stat, retire_current, delete}
use buff.Store.Open.{LeasedReader, close_reader}
use buff.Store.Invariant.{Inv, Drops-Inv, IsLoose, reclaim-Inv}
use buff.Store.Invariant.Registry.{
  acquire-Drops, release_handle-Drops, wake_if-Drops, drop_current-Drops, retire-Inv,
}
use buff.Store.Invariant.Sweep.{Leaves, wake_reclaim_release-Inv}

-- A claimed generation whose bytes still stand: what the reader that claimed it is to clean up.
pub record IsClaimed (s : Store) (g : ℕ) : Type 0 where
  pub allocated : g < s.next_gen
  pub claimed : (s.heap g).state ≡ consumed
  pub homed : (s.heap g).home ≡ true

claimed-IsLoose : (s : Store) (g : ℕ) → IsClaimed s g → Inv s → IsLoose s g
claimed-IsLoose s g c v = record {
  allocated = c.allocated;
  homed = c.homed;
  no_current = λ h e. ground arith;
  no_live = λ h e. ground (arith, v.live_gen h g e);
}

pub cleanup_consumed-Inv :
    (s : Store) (h g : ℕ) → IsClaimed s g → Inv s → Inv (cleanup_consumed s h g)
unfolding cleanup_consumed transition
cleanup_consumed-Inv s h g c v =
    let t = reclaim s g in
    let vt = reclaim-Inv s g (claimed-IsLoose s g c v) v in
    elim (Bool-cases (points_to (t.handles h).current g)) [
      | inl e ↦
          rw (e, cleanup_consumed)
            (Drops-Inv (wake_if-Drops true _ h) (Drops-Inv (drop_current-Drops t h) vt))
      | inr e ↦ rw (e, cleanup_consumed) vt
    ]

pub close_reader-Inv :
    (s : Store) (r : LeasedReader)
    → (r.closed ≡ false → r.cleanup ≡ true → IsClaimed s r.gen)
    → Inv s
    → Inv (close_reader s r).0
unfolding close_reader
close_reader-Inv s r c v = elim (Bool-cases r.closed) [
  | inl e ↦ rw (e, close_reader) v
  | inr e ↦ elim (Bool-cases r.cleanup) [
    | inl f ↦
        rw (e, close_reader)
          (rw f (
            Drops-Inv (release_handle-Drops _ r.handle)
              (cleanup_consumed-Inv s r.handle r.gen (c e f) v)))
    | inr f ↦ rw (e, close_reader) (rw f (Drops-Inv (release_handle-Drops s r.handle) v))
  ]
]

pub stat-Inv : (name : Bytes) (now : ℕ) (s : Store) → Inv s → Inv (stat name now s).0
unfolding stat
stat-Inv name now s v = elim (Option-cases (valid_name name)) [
  | inr (e, b) ↦ rw (b, stat) v
  | inl b ↦
      rw (b, stat)
        (Drops-Inv (release_handle-Drops _ (acquire s name).1) (Drops-Inv (acquire-Drops s name) v))
]

retire_current-Leaves :
    (k : Medium) (now h : ℕ) (s : Store)
    → Inv s
    → Leaves (retire_current k now h s).0 (retire_current k now h s).1.0
unfolding retire_current
retire_current-Leaves k now h s v = elim (Option-cases (present_current s h now)) [
  | inl e ↦ rw (e, retire_current) (v, tt)
  | inr (g, e) ↦
      let (c, f, _) = present_current_sound s h now g e in
      rw (e, retire_current) (retire-Inv k s h g c f v)
]

pub delete-Inv :
    (k : Medium) (name : Bytes) (now : ℕ) (s : Store) → Inv s → Inv (delete k name now s).0
unfolding delete transition_result
delete-Inv k name now s v = elim (Option-cases (valid_name name)) [
  | inr (e, b) ↦ rw (b, delete) v
  | inl b ↦
      let (t, h) = acquire s name in
      rw (b, delete)
        (wake_reclaim_release-Inv _ _ h h _
          (retire_current-Leaves k now h t (Drops-Inv (acquire-Drops s name) v)))
]
