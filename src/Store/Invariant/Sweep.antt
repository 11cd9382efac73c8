-- ===== src/Store/Invariant/Sweep.antt =====
-- The sweep of expired generations keeps the invariant.
use buff.Common.{
  ℕ, ◌%◌, refl, Bool, Option, List, [], ◌∷◌, word, Option-cases, Bool-cases, inl, inr,
}
use buff.Store.GenId.{GenId, id_eq}
use buff.Store.State.{Store, acquire, release_handle}
use buff.Store.Medium.{Medium}
use buff.Store.Gate.{transition_result, wake_if}
use buff.Store.Resolve.{expired_current, expired_current_sound}
use buff.Store.Reaper.{
  ReapCand, retire_candidate, reap_remove, reap_each, reap_expired, reap_candidates,
  reclaim_expired, reclaim_some, swept_recently,
}
use buff.Store.Invariant.{Inv, Drops-Inv, AreLoose, Drops-AreLoose, reclaim_some-Inv}
use buff.Store.Invariant.Registry.{acquire-Drops, release_handle-Drops, wake_if-Drops, retire-Inv}

-- What a closure leaves: the invariant, and a loose generation if it hands one over.
abbrev pub Leaves : Store → Option ℕ → Type 0
Leaves s prev = Inv s × AreLoose s prev

pub retire_candidate-Leaves :
    (k : Medium) (now : ℕ) (id : GenId) (h : ℕ) (s : Store)
    → Inv s
    → Leaves (retire_candidate k now id h s).0 (retire_candidate k now id h s).1
unfolding retire_candidate
retire_candidate-Leaves k now id h s v = elim (Option-cases (expired_current s h now)) [
  | inl e ↦ rw (e, retire_candidate) (v, tt)
  | inr (g, e) ↦ elim (Bool-cases (id_eq (s.heap g).id id)) [
    | inl same ↦
        let (c, f, _) = expired_current_sound s h now g e in
        rw (e, retire_candidate) (rw same (retire-Inv k s h g c f v))
    | inr other ↦ rw (e, retire_candidate) (rw other (v, tt))
  ]
]

-- The steps that follow the closure: the wake, the reclaim off the lock, the end of the lease.
pub wake_reclaim_release-Inv :
    (wake : Bool) (s : Store) (h j : ℕ) (prev : Option ℕ)
    → Leaves s prev
    → Inv (release_handle (reclaim_some (wake_if wake s h) prev) j)
wake_reclaim_release-Inv wake s h j prev (v, l) = Drops-Inv (release_handle-Drops _ j) (
    reclaim_some-Inv (wake_if wake s h) prev (Drops-AreLoose prev (wake_if-Drops wake s h) l)
      (Drops-Inv (wake_if-Drops wake s h) v))

pub reap_remove-Inv :
    (k : Medium) (now : ℕ) (s : Store) (c : ReapCand) → Inv s → Inv (reap_remove k now s c).0
unfolding reap_remove transition_result
reap_remove-Inv k now s c v =
    let (t, h) = acquire s c.name in
    wake_reclaim_release-Inv _ _ h h _
      (retire_candidate-Leaves k now c.id h t (Drops-Inv (acquire-Drops s c.name) v))

reap_each-Inv :
    (k : Medium) (now : ℕ) (s : Store) (cs : List ReapCand) → Inv s → Inv (reap_each k now s cs).0
unfolding reap_each
reap_each-Inv k now s [] v = v
reap_each-Inv k now s (c ∷ cs) v =
    reap_each-Inv k now (reap_remove k now s c).0 cs (reap_remove-Inv k now s c v)

pub reap_expired-Inv : (k : Medium) (s : Store) (now : ℕ) → Inv s → Inv (reap_expired k s now).0
unfolding reap_expired
reap_expired-Inv k s now v = reap_each-Inv k now s (reap_candidates s now) v

pub reclaim_expired-Inv :
    (k : Medium) (s : Store) (now : ℕ) → Inv s → Inv (reclaim_expired k s now).0
unfolding reclaim_expired
reclaim_expired-Inv k s now v = elim (Bool-cases (swept_recently s.last_reclaim (now % word))) [
  | inl e ↦ rw (e, reclaim_expired) v
  | inr e ↦
      rw (e, reclaim_expired)
        (reap_expired-Inv k (record s { last_reclaim = now % word }) now
          (Drops-Inv {s = s}
            (record {
              same_heap = refl;
              same_next = refl;
              same_bytes = refl;
              same_clips = refl;
              current_kept = λ h g e. e;
              live_kept = λ h g e. e;
            })
            v))
]
