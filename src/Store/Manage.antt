-- ===== src/Store/Manage.antt =====
-- store/store.go (`Stat`, `Delete`, `List`): the metadata operations.
use buff.Common.{
  ℕ, Bool, false, Option, none, some, ◌⊎◌, inl, inr, List, [], ◌∷◌, ◌++◌, Bytes, codes, is_some,
  if◌then◌else◌,
}
use buff.Clip.Errors.{Error, is, not_found, wrap}
use buff.Clip.Name.{valid_name}
use buff.Clip.Meta.{Clip}
use buff.Store.Generation.{clip_of}
use buff.Store.State.{Store, acquire, release_handle, snapshot}
use buff.Store.Medium.{Medium}
use buff.Store.Gate.{transition_result}
use buff.Store.Resolve.{present_current, resolve_read}
use buff.Store.Reclaim.{retire}
use buff.Store.Reaper.{reclaim_some}

abbrev pub shown : Store → ℕ ⊎ Error → Clip ⊎ Error
shown s (inl g) = inl (clip_of (s.heap g))
shown s (inr e) = inr e

unfoldable pub stat : Bytes → ℕ → Store → Store × (Clip ⊎ Error)
unfolding valid_name acquire release_handle resolve_read clip_of
stat name now s = elim (valid_name name) [
  | some e ↦ (s, inr e)
  | none ↦ let (t, h) = acquire s name in (release_handle t h, shown t (resolve_read t h now))
]

-- The closure of `Delete`: what is to be reclaimed, and the error.
unfoldable pub retire_current : Medium → ℕ → ℕ → Store → Store × (Option ℕ × Option Error) × Bool
unfolding present_current retire
retire_current k now h s = elim (present_current s h now) [
  | none ↦ (s, (none, some not_found), false)
  | some g ↦ let (t, prev, fault) = retire k s h g in (t, (prev, fault), is_some prev)
]

abbrev pub delete_error : Bytes → Option Error → Option Error
delete_error name none = none
delete_error name (some e) = some (if is e not_found then e else wrap (codes "delete " ++ name) e)

unfoldable pub delete : Medium → Bytes → ℕ → Store → Store × Option Error
unfolding valid_name acquire release_handle transition_result retire_current is
delete k name now s = elim (valid_name name) [
  | some e ↦ (s, some e)
  | none ↦
      let (s₁, h) = acquire s name in
      let (s₂, result) = transition_result s₁ h (retire_current k now h) in
      (release_handle (reclaim_some s₂ result.0) h, delete_error name result.1)
]

abbrev pub add_clip : Store → Option ℕ → List Clip → List Clip
add_clip s none rest = rest
add_clip s (some g) rest = clip_of (s.heap g) ∷ rest

unfoldable pub clips_at : Store → ℕ → List ℕ → List Clip
unfolding present_current clip_of
clips_at s now [] = []
clips_at s now (h ∷ hs) = add_clip s (present_current s h now) (clips_at s now hs)

unfoldable pub list : Store → ℕ → List Clip
unfolding clips_at snapshot
list s now = clips_at s now (snapshot s)
