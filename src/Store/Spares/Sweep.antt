-- ===== src/Store/Spares/Sweep.antt =====
-- A sweep spares every writer.
use buff.Common.{
  ℕ, ◌%◌, ◌≡◌, Bool, true, false, Option, none, some, List, [], ◌∷◌, arith, word, Option-cases,
  Bool-cases, inl, inr,
}
use buff.Store.GenId.{GenId, id_eq}
use buff.Store.Generation.{finalized}
use buff.Store.State.{Store, acquire, release_handle}
use buff.Store.Medium.{Medium}
use buff.Store.Gate.{transition_result, wake_if, wake_locked}
use buff.Store.Resolve.{expired_current, expired_current_sound}
use buff.Store.Reclaim.{retire}
use buff.Store.Reaper.{
  ReapCand, retire_candidate, reap_remove, reap_each, reap_expired, reap_candidates,
  reclaim_expired, reclaim_some, swept_recently,
}
use buff.Store.Spares.{
  Spares, Spares-refl, Spares-trans, acquire-Spares, release_handle-Spares, wake_if-Spares,
  drop_current-Spares, NotLive, reclaim_some-Spares,
}

pub retire-Spares :
    (k : Medium) (s : Store) (h g : ℕ)
    → (s.heap g).state ≡ finalized
    → Spares s (retire k s h g).0 × NotLive (retire k s h g).0 (retire k s h g).1
unfolding retire
retire-Spares k s h g f = elim (Bool-cases (k.unpublish (s.heap g)).0) [
  | inl c ↦ rw (c, retire) (drop_current-Spares s h, λ l. ground arith)
  | inr c ↦ rw (c, retire) (Spares-refl s, tt)
]

retire_candidate-Spares :
    (k : Medium) (now : ℕ) (id : GenId) (h : ℕ) (s : Store)
    → let r = retire_candidate k now id h s in Spares s r.0 × NotLive r.0 r.1
unfolding retire_candidate
retire_candidate-Spares k now id h s = elim (Option-cases (expired_current s h now)) [
  | inl e ↦ rw (e, retire_candidate) (Spares-refl s, tt)
  | inr (g, e) ↦ elim (Bool-cases (id_eq (s.heap g).id id)) [
    | inl same ↦
        rw (e, retire_candidate)
          (rw same (retire-Spares k s h g (expired_current_sound s h now g e).1))
    | inr other ↦ rw (e, retire_candidate) (rw other (Spares-refl s, tt))
  ]
]

-- A wake changes no generation.
pub NotLive-wake_if :
    (wake : Bool) (s : Store) (h : ℕ) (prev : Option ℕ)
    → NotLive s prev
    → NotLive (wake_if wake s h) prev
unfolding wake_locked
NotLive-wake_if wake s h none n = tt
NotLive-wake_if true s h (some g) n = n
NotLive-wake_if false s h (some g) n = n

pub wake_reclaim_release-Spares :
    (wake : Bool) (s t : Store) (h j : ℕ) (prev : Option ℕ)
    → Spares s t
    → NotLive t prev
    → Spares s (release_handle (reclaim_some (wake_if wake t h) prev) j)
wake_reclaim_release-Spares wake s t h j prev a n = Spares-trans a (
    Spares-trans (wake_if-Spares wake t h) (
      Spares-trans (reclaim_some-Spares (wake_if wake t h) prev (NotLive-wake_if wake t h prev n))
        (release_handle-Spares _ j)))

reap_remove-Spares :
    (k : Medium) (now : ℕ) (s : Store) (c : ReapCand) → Spares s (reap_remove k now s c).0
unfolding reap_remove transition_result
reap_remove-Spares k now s c =
    let (t, h) = acquire s c.name in
    let (a, n) = retire_candidate-Spares k now c.id h t in
    wake_reclaim_release-Spares _ s _ h h _ (Spares-trans (acquire-Spares s c.name) a) n

reap_each-Spares :
    (k : Medium) (now : ℕ) (s : Store) (cs : List ReapCand) → Spares s (reap_each k now s cs).0
unfolding reap_each
reap_each-Spares k now s [] = Spares-refl s
reap_each-Spares k now s (c ∷ cs) =
    Spares-trans (reap_remove-Spares k now s c)
      (reap_each-Spares k now (reap_remove k now s c).0 cs)

pub reap_expired-Spares : (k : Medium) (s : Store) (now : ℕ) → Spares s (reap_expired k s now).0
unfolding reap_expired
reap_expired-Spares k s now = reap_each-Spares k now s (reap_candidates s now)

pub reclaim_expired-Spares :
    (k : Medium) (s : Store) (now : ℕ) → Spares s (reclaim_expired k s now).0
unfolding reclaim_expired
reclaim_expired-Spares k s now = elim (Bool-cases (swept_recently s.last_reclaim (now % word))) [
  | inl e ↦ rw (e, reclaim_expired) (Spares-refl s)
  | inr e ↦
      rw (e, reclaim_expired)
        (let a = reap_expired-Spares k (record s { last_reclaim = now % word }) now in
          record { next_le = a.next_le; live_same = a.live_same; gen_same = a.gen_same })
]
