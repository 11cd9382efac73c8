-- ===== src/Store/Outcomes/Showing.antt =====
-- `store.Stat`: what it shows of a name, and that it changes nothing.
use buff.Common.{ℕ, ◌≡◌, refl, ◌⊎◌, inl, inr, none, some, Bytes, Option-cases, ap, arith}
use buff.Clip.Errors.{not_found}
use buff.Clip.Name.{valid_name}
use buff.Store.State.{Store, acquire, find_handle, lease, new_handle, or_new}
use buff.Store.Resolve.{resolve_read, present_current}
use buff.Store.Manage.{stat, shown}
use buff.Store.Outcomes.{release_heap}

same_resolution :
    (s t : Store) (h now : ℕ)
    → t.heap ≡ s.heap
    → (t.handles h).current ≡ (s.handles h).current
    → (t.handles h).live ≡ (s.handles h).live
    → resolve_read t h now ≡ resolve_read s h now
unfolding resolve_read present_current
same_resolution s t h now a b c = ground arith

lease_resolution : (s : Store) (h now : ℕ) → resolve_read (lease s h) h now ≡ resolve_read s h now
lease_resolution s h now = same_resolution s (lease s h) h now refl (ground arith) (ground arith)

new_resolution :
    (s : Store) (name : Bytes) (now : ℕ)
    → resolve_read (or_new none s name).0 s.next_handle now ≡ inr not_found
unfolding resolve_read present_current new_handle
new_resolution s name now = ground arith

-- `Stat` of a valid name shows what a plain read of the name at that instant resolves to, the clip
-- or the error, and does not change the store's generations; a name that no handle has is not
-- found.
pub stat_outcome :
    (name : Bytes) (now : ℕ) (s : Store)
    → valid_name name ≡ none
    → let r = stat name now s in
      (r.0.heap ≡ s.heap)
      × (((h : ℕ) × (find_handle name s.table ≡ some h) × (r.1 ≡ shown s (resolve_read s h now)))
          ⊎ ((find_handle name s.table ≡ none) × (r.1 ≡ inr not_found)))
unfolding stat acquire
stat_outcome name now s v = elim (Option-cases (find_handle name s.table)) [
  | inr (h, e) ↦
      rw (v, stat, e, acquire)
        (release_heap (lease s h) h, inl (h, refl, ap (shown s) (lease_resolution s h now)))
  | inl e ↦
      rw (v, stat, e, acquire)
        (
          release_heap (or_new none s name).0 s.next_handle,
          inr (refl, ap (shown s) (new_resolution s name now)),
        )
]
