-- ===== src/Store/Reaper.antt =====
-- store/reaper.go: the sweep of expired generations, and the rate limit on the one that a full
-- store makes before it refuses a write.
use buff.Common.{
  ℕ, suc, ◌%◌, Bool, false, not, ◌&&◌, Option, none, some, List, [], ◌∷◌, Bytes, ltb, ◌==◌, is_some,
  if◌then◌else◌, word, sub64, slt64,
}
use buff.Store.GenId.{GenId, id_eq}
use buff.Store.State.{Store, acquire, release_handle, snapshot}
use buff.Store.Medium.{Medium}
use buff.Store.Gate.{transition_result}
use buff.Store.Resolve.{expired_current}
use buff.Store.Reclaim.{reclaim, retire}

pub record ReapCand : Type 0 where
  pub name : Bytes
  pub id : GenId

abbrev add_candidate : Store → Option ℕ → List ReapCand → List ReapCand
add_candidate s none rest = rest
add_candidate s (some g) rest = record { name = (s.heap g).name; id = (s.heap g).id } ∷ rest

candidates_at : Store → ℕ → List ℕ → List ReapCand
unfolding expired_current
candidates_at s now [] = []
candidates_at s now (h ∷ hs) = add_candidate s (expired_current s h now) (candidates_at s now hs)

unfoldable pub reap_candidates : Store → ℕ → List ReapCand
unfolding candidates_at snapshot
reap_candidates s now = candidates_at s now (snapshot s)

-- The closure of `reapRemove`: spares what is no longer the generation that the walk saw.
unfoldable pub retire_candidate : Medium → ℕ → GenId → ℕ → Store → Store × Option ℕ × Bool
unfolding expired_current retire
retire_candidate k now id h s = elim (expired_current s h now) [
  | none ↦ (s, none, false)
  | some g ↦
      if not (id_eq (s.heap g).id id)
      then (s, none, false)
      else (let (t, prev, fault) = retire k s h g in (t, prev, is_some prev))
]

abbrev pub reclaim_some : Store → Option ℕ → Store
reclaim_some s none = s
reclaim_some s (some g) = reclaim s g

unfoldable pub reap_remove : Medium → ℕ → Store → ReapCand → Store × Bool
unfolding retire_candidate acquire release_handle transition_result reclaim
reap_remove k now s c =
    let (s₁, h) = acquire s c.name in
    let (s₂, prev) = transition_result s₁ h (retire_candidate k now c.id h) in
    (release_handle (reclaim_some s₂ prev) h, is_some prev)

unfoldable pub reap_each : Medium → ℕ → Store → List ReapCand → Store × ℕ
reap_each k now s [] = (s, 0)
reap_each k now s (c ∷ cs) =
    let (t, freed) = reap_remove k now s c in
    let (u, count) = reap_each k now t cs in (u, if freed then suc count else count)

-- `reapExpired`, and with the clock `ReapOnce`.
unfoldable pub reap_expired : Medium → Store → ℕ → Store × ℕ
unfolding reap_candidates reap_each
reap_expired k s now = reap_each k now s (reap_candidates s now)

-- A second, in nanoseconds.
abbrev pub min_reclaim_interval : ℕ
min_reclaim_interval = 1000000000

-- Whether a sweep at this instant is still refused.
abbrev pub swept_recently : ℕ → ℕ → Bool
swept_recently last n = not (last == 0) && slt64 (sub64 n last) min_reclaim_interval

unfoldable pub reclaim_expired : Medium → Store → ℕ → Store × Bool
unfolding reap_expired
reclaim_expired k s now =
    let n = now % word in
    if swept_recently s.last_reclaim n
    then (s, false)
    else (let (t, freed) = reap_expired k (record s { last_reclaim = n }) now in (t, ltb 0 freed))
