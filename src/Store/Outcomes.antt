-- ===== src/Store/Outcomes.antt =====
-- What one call leaves behind, on every branch.
pub mod Closing
pub mod Showing
pub mod Listing
pub mod Writing
pub mod Admission
pub mod Removal
use buff.Common.{
  ℕ, ◌-◌, ◌≡◌, refl, Bool, not, ◌&&◌, Option, none, some, arith, if◌then◌else◌, ◌==◌, is_some,
}
use buff.Store.State.{Store, release_handle}
use buff.Store.Reclaim.{reclaim}
use buff.Store.Reaper.{reclaim_some}

pub release_current :
    (s : Store) (h j : ℕ) → ((release_handle s h).handles j).current ≡ (s.handles j).current
unfolding release_handle
release_current s h j = ground arith

pub release_live :
    (s : Store) (h j : ℕ) → ((release_handle s h).handles j).live ≡ (s.handles j).live
unfolding release_handle
release_live s h j = ground arith

pub release_heap : (s : Store) (h : ℕ) → (release_handle s h).heap ≡ s.heap
unfolding release_handle
release_heap s h = ground arith

pub reclaim_handles : (s : Store) (prev : Option ℕ) → (reclaim_some s prev).handles ≡ s.handles
unfolding reclaim
reclaim_handles s none = refl
reclaim_handles s (some g) = refl
