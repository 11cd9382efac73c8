-- ===== src/Store/Outcomes/Removal.antt =====
-- `store.Delete`: the value is gone, or everything is as it was.
use buff.Common.{
  ℕ, ◌≡◌, refl, ◌⊎◌, inl, inr, true, false, Option, none, some, arith, Bool-cases, Option-cases,
  Bytes,
}
use buff.Clip.Errors.{Error}
use buff.Clip.Name.{valid_name}
use buff.Store.Generation.{Generation}
use buff.Store.State.{Store, put_handle, acquire, release_handle}
use buff.Store.Medium.{Medium}
use buff.Store.Gate.{transition_result, wake_if, wake_locked}
use buff.Store.Resolve.{present_current, present_current_sound, IsCurrentValue}
use buff.Store.Reclaim.{retire, reclaim}
use buff.Store.Reaper.{reclaim_some}
use buff.Store.Manage.{delete, retire_current, delete_error}
use buff.Store.Outcomes.{release_current, release_live, release_heap}

-- The contract of a commit point: one that did not take reports its fault.
pub record IsFaithful (k : Medium) : Type 0 where
  pub unpublish_fails :
      (g : Generation) → (k.unpublish g).0 ≡ false → (e : Error) × ((k.unpublish g).1 ≡ some e)

-- The name has no value any more, and its bytes are reclaimed.
pub record IsDeleted (s t : Store) (h g now : ℕ) : Type 0 where
  pub was_value : IsCurrentValue s h now g
  pub no_value : (t.handles h).current ≡ none
  pub same_live : (t.handles h).live ≡ (s.handles h).live
  pub no_home : (t.heap g).home ≡ false

-- The values and the generations are as they were.
pub record IsUntouched (s t : Store) : Type 0 where
  pub same_current : (j : ℕ) → (t.handles j).current ≡ (s.handles j).current
  pub same_live : (j : ℕ) → (t.handles j).live ≡ (s.handles j).live
  pub same_heap : t.heap ≡ s.heap

released-IsUntouched : (s : Store) (h : ℕ) → IsUntouched s (release_handle s h)
released-IsUntouched s h = record {
  same_current = release_current s h;
  same_live = release_live s h;
  same_heap = release_heap s h;
}

abbrev removed : Store → ℕ → ℕ → Store
removed s h g =
    release_handle
      (reclaim (wake_if true (put_handle s h (record (s.handles h) { current = none })) h) g) h

removed-IsDeleted :
    (s : Store) (h g now : ℕ) → IsCurrentValue s h now g → IsDeleted s (removed s h g) h g now
unfolding reclaim wake_locked
removed-IsDeleted s h g now v = record {
  was_value = v;
  no_value = rw release_current (ground arith);
  same_live = rw release_live (ground arith);
  no_home = rw release_heap (ground arith);
}

abbrev settled : Medium → ℕ → ℕ → Bytes → Store → Store × Option Error
settled k now h name s =
    let (t, result) = transition_result s h (retire_current k now h) in
    (release_handle (reclaim_some t result.0) h, delete_error name result.1)

settled_outcome :
    (k : Medium) (now h : ℕ) (name : Bytes) (s : Store)
    → IsFaithful k
    → let r = settled k now h name s in
      ((g : ℕ) × IsDeleted s r.0 h g now) ⊎ ((e : Error) × (r.1 ≡ some e) × IsUntouched s r.0)
unfolding transition_result retire_current retire
settled_outcome k now h name s f = elim (Option-cases (present_current s h now)) [
  | inl p ↦ inr (rw (p, retire_current) (_, refl, released-IsUntouched s h))
  | inr (g, p) ↦ elim (Bool-cases (k.unpublish (s.heap g)).0) [
    | inl c ↦ inl (
      g,
      rw (p, retire_current, c, retire)
          (removed-IsDeleted s h g now (present_current_sound s h now g p)),
    )
    | inr c ↦
        let (e, q) = f.unpublish_fails (s.heap g) c in
        inr (rw (p, retire_current, c, retire, q) (_, refl, released-IsUntouched s h))
  ]
]

-- `Delete` of a valid name, on a medium whose failed commits report their fault, takes one of two
-- ways. Either the name had a present value, which it has no more, and whose bytes are reclaimed,
-- while its writer goes on; or it returns an error, and every value, every writer and every
-- generation is as it was.
pub delete_outcome :
    (k : Medium) (name : Bytes) (now : ℕ) (s : Store)
    → IsFaithful k
    → valid_name name ≡ none
    → let (s₁, h) = acquire s name in
      let r = delete k name now s in
      ((g : ℕ) × IsDeleted s₁ r.0 h g now) ⊎ ((e : Error) × (r.1 ≡ some e) × IsUntouched s₁ r.0)
unfolding delete transition_result
delete_outcome k name now s f v =
    rw (v, delete) (settled_outcome k now (acquire s name).1 name (acquire s name).0 f)
