-- ===== src/Store/Ages.antt =====
-- The one-way life of a generation: no operation takes a claim back but the claim itself, when the
-- medium refused it.
pub mod Reading
pub mod Writing
use buff.Common.{
  ℕ, suc, ◌+◌, ◌%◌, ◌≤◌, ◌<◌, ◌≡◌, refl, ◌≢◌, Bool, true, false, not, ◌&&◌, Option, none, some,
  List, [], ◌∷◌, arith, if◌then◌else◌, ◌==◌, Bool-cases, Option-cases, inl, inr, word,
}
use buff.Store.GenId.{GenId, id_eq}
use buff.Store.Generation.{Generation, GenState, live, finalized, consumed}
use buff.Store.State.{Store, put_gen, put_handle, acquire, release_handle}
use buff.Store.Medium.{Medium}
use buff.Store.Gate.{wake_if, transition_result}
use buff.Store.Resolve.{expired_current}
use buff.Store.Reclaim.{reclaim, retire}
use buff.Store.Reaper.{
  ReapCand, reclaim_some, retire_candidate, reap_remove, reap_each, reap_expired, reap_candidates,
  reclaim_expired, swept_recently,
}
use buff.Store.Invariant.{Drops}
use buff.Store.Invariant.Registry.{
  acquire-Drops, release_handle-Drops, wake_if-Drops, drop_current-Drops,
}

pub record Ages (s t : Store) : Type 0 where
  pub next_le : s.next_gen ≤ t.next_gen
  pub stays : (g : ℕ) → g < s.next_gen → (s.heap g).state ≡ consumed → (t.heap g).state ≡ consumed

pub Ages-refl : (s : Store) → Ages s s
Ages-refl s = record { next_le = omega arith; stays = λ g l e. e }

pub Ages-trans : {s t u : Store} → Ages s t → Ages t u → Ages s u
Ages-trans a b = record {
  next_le = omega (arith, a.next_le, b.next_le);
  stays = λ g l e. b.stays g (omega (arith, a.next_le)) (a.stays g l e);
}

pub Ages-Drops : {s t : Store} → Drops s t → Ages s t
Ages-Drops d = record { next_le = omega (arith, d.same_next); stays = λ g l e. rw d.same_heap e }

-- A change of a cell that was not claimed, or that keeps its state.
pub put_gen-Ages :
    (s : Store) (g : ℕ) (v : Generation)
    → ((s.heap g).state ≡ consumed → v.state ≡ consumed)
    → Ages s (put_gen s g v)
put_gen-Ages s g v h = record { next_le = omega arith; stays = λ c l e. ground arith }

pub reclaim-Ages : (s : Store) (g : ℕ) → Ages s (reclaim s g)
unfolding reclaim
reclaim-Ages s g = record { next_le = omega arith; stays = λ c l e. ground arith }

pub reclaim_some-Ages : (s : Store) (prev : Option ℕ) → Ages s (reclaim_some s prev)
reclaim_some-Ages s none = Ages-refl s
reclaim_some-Ages s (some g) = reclaim-Ages s g

pub retire-Ages : (k : Medium) (s : Store) (h g : ℕ) → Ages s (retire k s h g).0
unfolding retire
retire-Ages k s h g = elim (Bool-cases (k.unpublish (s.heap g)).0) [
  | inl c ↦ rw (c, retire) (Ages-Drops (drop_current-Drops s h))
  | inr c ↦ rw (c, retire) (Ages-refl s)
]

retire_candidate-Ages :
    (k : Medium) (now : ℕ) (id : GenId) (h : ℕ) (s : Store)
    → Ages s (retire_candidate k now id h s).0
unfolding retire_candidate
retire_candidate-Ages k now id h s = elim (Option-cases (expired_current s h now)) [
  | inl e ↦ rw (e, retire_candidate) (Ages-refl s)
  | inr (g, e) ↦ elim (Bool-cases (id_eq (s.heap g).id id)) [
    | inl same ↦ rw (e, retire_candidate) (rw same (retire-Ages k s h g))
    | inr other ↦ rw (e, retire_candidate) (rw other (Ages-refl s))
  ]
]

pub wake_reclaim_release-Ages :
    (wake : Bool) (s : Store) (h j : ℕ) (prev : Option ℕ)
    → Ages s (release_handle (reclaim_some (wake_if wake s h) prev) j)
wake_reclaim_release-Ages wake s h j prev =
    Ages-trans (Ages-Drops (wake_if-Drops wake s h)) (
      Ages-trans (reclaim_some-Ages (wake_if wake s h) prev)
        (Ages-Drops (release_handle-Drops _ j)))

reap_remove-Ages :
    (k : Medium) (now : ℕ) (s : Store) (c : ReapCand) → Ages s (reap_remove k now s c).0
unfolding reap_remove transition_result
reap_remove-Ages k now s c =
    let (t, h) = acquire s c.name in
    Ages-trans (Ages-Drops (acquire-Drops s c.name))
      (Ages-trans (retire_candidate-Ages k now c.id h t) (wake_reclaim_release-Ages _ _ h h _))

reap_each-Ages :
    (k : Medium) (now : ℕ) (s : Store) (cs : List ReapCand) → Ages s (reap_each k now s cs).0
unfolding reap_each
reap_each-Ages k now s [] = Ages-refl s
reap_each-Ages k now s (c ∷ cs) =
    Ages-trans (reap_remove-Ages k now s c) (reap_each-Ages k now (reap_remove k now s c).0 cs)

pub reap_expired-Ages : (k : Medium) (s : Store) (now : ℕ) → Ages s (reap_expired k s now).0
unfolding reap_expired
reap_expired-Ages k s now = reap_each-Ages k now s (reap_candidates s now)

pub reclaim_expired-Ages : (k : Medium) (s : Store) (now : ℕ) → Ages s (reclaim_expired k s now).0
unfolding reclaim_expired
reclaim_expired-Ages k s now = elim (Bool-cases (swept_recently s.last_reclaim (now % word))) [
  | inl e ↦ rw (e, reclaim_expired) (Ages-refl s)
  | inr e ↦
      rw (e, reclaim_expired)
        (let a = reap_expired-Ages k (record s { last_reclaim = now % word }) now in
          record { next_le = a.next_le; stays = a.stays })
]
