-- ===== src/Store/Reclaim.antt =====
-- store/store.go (`reclaim`, `retire`, `cleanupConsumed`): how a generation leaves the store.
use buff.Common.{ℕ, Bool, true, false, Option, none, some, ◌==◌, if◌then◌else◌}
use buff.Clip.Errors.{Error}
use buff.Store.Quota.{release_gen}
use buff.Store.State.{Store, put_handle, put_gen}
use buff.Store.Medium.{Medium}
use buff.Store.Gate.{transition}

-- The medium removes the home, and then the quota takes the footprint back.
unfoldable pub reclaim : Store → ℕ → Store
unfolding release_gen
reclaim s g = record (put_gen s g (record (s.heap g) { home = false })) {
  quota = release_gen s.quota (s.heap g).buf.size;
}

-- What a retirement hands back: the generation to reclaim, if the unpublish took, and the fault.
unfoldable pub retire : Medium → Store → ℕ → ℕ → Store × Option ℕ × Option Error
retire k s h g =
    let (committed, fault) = k.unpublish (s.heap g) in
    if committed
    then (put_handle s h (record (s.handles h) { current = none }), some g, fault)
    else (s, none, fault)

abbrev pub points_to : Option ℕ → ℕ → Bool
points_to none g = false
points_to (some c) g = c == g

unfoldable pub cleanup_consumed : Store → ℕ → ℕ → Store
unfolding reclaim transition
cleanup_consumed s h g = transition (reclaim s g) h λ t.
    if points_to (t.handles h).current g
    then (put_handle t h (record (t.handles h) { current = none }), true)
    else (t, false)
