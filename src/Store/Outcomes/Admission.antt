-- ===== src/Store/Outcomes/Admission.antt =====
-- `store.createOnce`: what it asks of the name and the quota, and what a refusal leaves.
use buff.Common.{
  ℕ, ◌<◌, ◌≡◌, refl, ◌⊎◌, inl, inr, true, false, not, ◌&&◌, none, some, arith, Bool-cases,
  Option-cases, Sum-cases, Bytes, bytes_eq, bytes_eq_iff, [], word,
}
use buff.Clip.Errors.{Error}
use buff.Clip.Meta.{Meta}
use buff.Buffer.{new_buffer}
use buff.Store.GenId.{allocate, id_string}
use buff.Store.Quota.{Quota, reserve_clip, release_clip}
use buff.Store.Generation.{live}
use buff.Store.State.{Store, put_handle}
use buff.Store.Medium.{Medium}
use buff.Store.Resolve.{present_current, present_current_sound, IsCurrentValue}
use buff.Store.Create.{PutOpts, admit, mint, matches, star}

-- What the precondition of `Create` asks: nothing, or the value that the name has now.
abbrev pub Condition : Store → ℕ → ℕ → Bytes → Type 0
Condition s h now token =
    (token ≡ [])
    ⊎ ((c : ℕ) × IsCurrentValue s h now c × ((token ≡ star) ⊎ (token ≡ id_string (s.heap c).id)))

-- The name has one writer, and its log is new and empty.
pub record IsAdmitted (s t : Store) (h g now : ℕ) (m : Meta) (o : PutOpts) : Type 0 where
  pub was_free : (s.handles h).live ≡ none
  pub fresh : g ≡ s.next_gen
  pub is_live : (t.handles h).live ≡ some g
  pub same_value : (t.handles h).current ≡ (s.handles h).current
  pub state_live : (t.heap g).state ≡ live
  pub empty_log : (t.heap g).buf.stored ≡ []
  pub same_meta : (t.heap g).metadata ≡ m
  pub secret : (t.heap g).consume ≡ o.consume_once
  pub condition :
      (o.if_match ≡ [])
      ⊎ ((c : ℕ) × IsCurrentValue s h now c
          × ((o.if_match ≡ star) ⊎ (o.if_match ≡ id_string (s.heap c).id)))

-- The store is as it was, but for the name's seed of ids.
pub record IsRefused (s t : Store) : Type 0 where
  pub same_heap : t.heap ≡ s.heap
  pub same_next : t.next_gen ≡ s.next_gen
  pub same_quota : t.quota ≡ s.quota
  pub same_table : t.table ≡ s.table
  pub same_current : (j : ℕ) → (t.handles j).current ≡ (s.handles j).current
  pub same_live : (j : ℕ) → (t.handles j).live ≡ (s.handles j).live

matches_sound :
    (s : Store) (h now : ℕ) (token : Bytes)
    → matches s (present_current s h now) token ≡ true
    → (c : ℕ) × IsCurrentValue s h now c × ((token ≡ star) ⊎ (token ≡ id_string (s.heap c).id))
matches_sound s h now token e = elim (Option-cases (present_current s h now)) [
  | inl f ↦ cc
  | inr (c, f) ↦ (
    c,
    present_current_sound s h now c f,
    ground (arith, bytes_eq_iff token star, bytes_eq_iff (id_string (s.heap c).id) token),
  )
]

refund_quota :
    (q : Quota) → q.clips < word → (reserve_clip q).1 ≡ true → release_clip (reserve_clip q).0 ≡ q
unfolding reserve_clip release_clip
refund_quota q h e = ground arith

Condition-sound :
    (s : Store) (h now : ℕ) (token : Bytes)
    → (not (bytes_eq token []) && not (matches s (present_current s h now) token)) ≡ false
    → Condition s h now token
Condition-sound s h now token e = elim (Bool-cases (bytes_eq token [])) [
  | inl f ↦ inl (ground (arith, bytes_eq_iff token []))
  | inr f ↦ inr (matches_sound s h now token (ground arith))
]

IsRefused-refl : (s : Store) → IsRefused s s
IsRefused-refl s = record {
  same_heap = refl;
  same_next = refl;
  same_quota = refl;
  same_table = refl;
  same_current = λ j. refl;
  same_live = λ j. refl;
}

abbrev refunded : Store → Store
refunded s = record s { quota = release_clip (reserve_clip s.quota).0 }

refunded-IsRefused :
    (s : Store) → s.quota.clips < word → (reserve_clip s.quota).1 ≡ true → IsRefused s (refunded s)
refunded-IsRefused s q e = record {
  same_heap = refl;
  same_next = refl;
  same_quota = refund_quota s.quota q e;
  same_table = refl;
  same_current = λ j. refl;
  same_live = λ j. refl;
}

seeded-IsRefused :
    (s : Store) (h seed : ℕ)
    → s.quota.clips < word
    → (reserve_clip s.quota).1 ≡ true
    → IsRefused s (put_handle (refunded s) h (record (s.handles h) { last_prefix = seed }))
seeded-IsRefused s h seed q e = record {
  same_heap = refl;
  same_next = refl;
  same_quota = refund_quota s.quota q e;
  same_table = refl;
  same_current = λ j. ground arith;
  same_live = λ j. ground arith;
}

mint_outcome :
    (k : Medium) (now : ℕ) (random : ℕ ⊎ Error) (h : ℕ) (name : Bytes) (m : Meta) (o : PutOpts)
    → (s : Store) → s.quota.clips < word
    → (reserve_clip s.quota).1 ≡ true
    → (s.handles h).live ≡ none
    → Condition s h now o.if_match
    → let r = mint k now random h name m o (record s { quota = (reserve_clip s.quota).0 }) in
      ((g : ℕ) × (r.1 ≡ inl g) × IsAdmitted s r.0 h g now m o)
      ⊎ ((e : Error) × (r.1 ≡ inr e) × IsRefused s r.0)
unfolding mint
mint_outcome k now random h name m o s q e free c =
    elim (Sum-cases (allocate now random (s.handles h).last_prefix)) [
      | inr (x, f) ↦ inr (rw (f, mint) (_, refl, refunded-IsRefused s q e))
      | inl ((id, seed), f) ↦ elim (Option-cases (k.create id)) [
        | inr (x, p) ↦ inr (rw (f, mint, p, mint) (_, refl, seeded-IsRefused s h seed q e))
        | inl p ↦ inl (
            rw (f, mint, p, mint)
              (
                _,
                refl,
                record {
                  was_free = free;
                  fresh = refl;
                  is_live = ground arith;
                  same_value = ground arith;
                  state_live = ground arith;
                  empty_log = unfold new_buffer in ground arith;
                  same_meta = ground arith;
                  secret = ground arith;
                  condition = c;
                },
              ))
      ]
    ]

-- The admission of a write, in a store whose clip counter is a 64-bit pattern, takes one of two
-- ways. Either it is granted: then the name had no writer and met the precondition (it asked for
-- none, or the name's present value is the one it names or, for "*", any), the value stands, and a
-- new generation with the given metadata and an empty log is live; or it fails, and leaves every
-- value, every writer, every byte and the counters as they were.
pub admit_outcome :
    (k : Medium) (now : ℕ) (random : ℕ ⊎ Error) (h : ℕ) (name : Bytes) (m : Meta) (o : PutOpts)
    → (s : Store) → s.quota.clips < word
    → let r = admit k now random h name m o s in
      ((g : ℕ) × (r.1 ≡ inl g) × IsAdmitted s r.0 h g now m o)
      ⊎ ((e : Error) × (r.1 ≡ inr e) × IsRefused s r.0)
unfolding admit
admit_outcome k now random h name m o s q =
    let failing =
      not (bytes_eq o.if_match []) && not (matches s (present_current s h now) o.if_match) in
    elim (Bool-cases failing) [
      | inl f ↦ inr (rw (f, admit) (_, refl, IsRefused-refl s))
      | inr f ↦ elim (Option-cases (s.handles h).live) [
        | inr (g, l) ↦ inr (rw (f, admit, l, admit) (_, refl, IsRefused-refl s))
        | inl l ↦ elim (Bool-cases (reserve_clip s.quota).1) [
          | inr e ↦ inr (rw (f, admit, l, admit, e, admit) (_, refl, IsRefused-refl s))
          | inl e ↦
              rw (f, admit, l, admit, e, admit)
                (mint_outcome k now random h name m o s q e l
                  (Condition-sound s h now o.if_match f))
        ]
      ]
    ]
