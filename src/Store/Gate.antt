-- ===== src/Store/Gate.antt =====
-- store/gate.go: the ways in which the lock of a handle is taken, each one atomic step. A closure
-- is a function of the store, and its Go type's results are the parts of a tuple.
use buff.Common.{ℕ, ◌+◌, Bool, ◌⊎◌, inl, inr, if◌then◌else◌}
use buff.Clip.Errors.{Error}
use buff.Store.State.{Store, put_handle}

unfoldable pub wake_locked : Store → ℕ → Store
wake_locked s h = put_handle s h (record (s.handles h) { notify = (s.handles h).notify + 1 })

abbrev pub wake_if : Bool → Store → ℕ → Store
wake_if wake s h = if wake then wake_locked s h else s

-- `transition`
unfoldable pub transition : Store → ℕ → (Store → Store × Bool) → Store
unfolding wake_locked
transition s h fn = let (s', wake) = fn s in wake_if wake s' h

-- `transitionResult`
unfoldable pub transition_result {ℓ} :
    {T : Type ℓ} → Store → ℕ → (Store → Store × T × Bool) → Store × T
unfolding wake_locked
transition_result s h fn = let (s', result, wake) = fn s in (wake_if wake s' h, result)

-- One turn of the loop of `await` answers, or parks on a channel.
pub data Awaited {ℓ} (T : Type ℓ) : Type ℓ where
  answers : T → Awaited T
  refuses : Error → Awaited T
  parks : ℕ → Awaited T

unfoldable pub await_turn {ℓ} :
    {T : Type ℓ}
    → Store
    → ℕ
    → (Store → ℕ ⊎ Error)
    → (Error → Bool)
    → (Store → ℕ → Store × T × Bool)
    → Store × Awaited T
unfolding wake_locked
await_turn s h resolve waitable commit = elim (resolve s) [
  | inl g ↦ let (s', result, wake) = commit s g in (wake_if wake s' h, answers result)
  | inr e ↦ (s, if waitable e then parks (s.handles h).notify else refuses e)
]
