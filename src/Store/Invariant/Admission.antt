-- ===== src/Store/Invariant/Admission.antt =====
-- `Create` keeps the invariant.
use buff.Common.{
  ℕ, ◌+◌, ◌%◌, ◌≡◌, refl, true, not, ◌&&◌, none, [], arith, word, Option-cases, Bool-cases,
  Sum-cases, inl, inr, ◌⊎◌, Bytes, bytes_eq,
}
use buff.Clip.Errors.{Error}
use buff.Clip.Meta.{Meta, normalized}
use buff.Clip.Name.{valid_name}
use buff.Store.GenId.{allocate}
use buff.Store.Quota.{Quota, reserve_clip, release_clip}
use buff.Store.Generation.{Generation, live}
use buff.Store.State.{Store, put_handle, acquire}
use buff.Store.Medium.{Medium}
use buff.Store.Gate.{transition_result}
use buff.Store.Resolve.{present_current}
use buff.Store.Reaper.{reclaim_expired}
use buff.Store.Create.{
  PutOpts, CreateInputs, install, mint, admit, matches, created, create_once, create, is_full,
}
use buff.Store.Accounting.{total-update_new, held_bytes, held_clips}
use buff.Store.Invariant.{Inv, Drops, Drops-Inv}
use buff.Store.Invariant.Registry.{acquire-Drops, release_handle-Drops, wake_if-Drops}
use buff.Store.Invariant.Sweep.{reclaim_expired-Inv}

-- A new empty live generation, its count reserved, in a handle that has no live one.
pub install-Inv :
    (s : Store) (q : Quota) (h : ℕ) (g : Generation)
    → q.bytes ≡ s.quota.bytes
    → q.clips ≡ (s.quota.clips + 1) % word
    → (s.handles h).live ≡ none
    → g.state ≡ live
    → g.home ≡ true
    → g.buf.size ≡ 0
    → Inv s
    → Inv (install (record s { quota = q }) h g)
install-Inv s q h g qb qc e st hm sz v = record {
  current_gen = λ j c p. ground (arith, v.current_gen j c);
  live_gen = λ j c p. ground (arith, v.live_gen j c);
  current_once = λ j i c p r. ground (arith, v.current_once j i c);
  live_once = λ j i c p r. ground (arith, v.live_once j i c, v.live_gen j c, v.live_gen i c);
  bytes_held = ground (arith, v.bytes_held, total-update_new held_bytes s.heap s.next_gen g);
  clips_held = ground (arith, v.clips_held, total-update_new held_clips s.heap s.next_gen g);
}

-- A reservation that is given back, whatever the seed of the name.
refund-Drops :
    (s : Store) (h seed : ℕ)
    → (reserve_clip s.quota).1 ≡ true
    → Inv s
    → Drops s (
        put_handle
          (record s { quota = release_clip (reserve_clip s.quota).0 })
          h
          (record (s.handles h) { last_prefix = seed }))
unfolding reserve_clip release_clip
refund-Drops s h seed e v = record {
  same_heap = refl;
  same_next = refl;
  same_bytes = ground arith;
  same_clips = ground (arith, v.clips_held);
  current_kept = λ j g p. ground arith;
  live_kept = λ j g p. ground arith;
}

keep-Drops :
    (s : Store)
    → (reserve_clip s.quota).1 ≡ true
    → Inv s
    → Drops s (record s { quota = release_clip (reserve_clip s.quota).0 })
unfolding reserve_clip release_clip
keep-Drops s e v = record {
  same_heap = refl;
  same_next = refl;
  same_bytes = ground arith;
  same_clips = ground (arith, v.clips_held);
  current_kept = λ j g p. p;
  live_kept = λ j g p. p;
}

reserved_clips :
    (q : Quota) → (reserve_clip q).1 ≡ true → (reserve_clip q).0.clips ≡ (q.clips + 1) % word
unfolding reserve_clip
reserved_clips q e = ground arith

reserved_bytes : (q : Quota) → (reserve_clip q).0.bytes ≡ q.bytes
unfolding reserve_clip
reserved_bytes q = ground arith

mint-Inv :
    (k : Medium) (now : ℕ) (random : ℕ ⊎ Error) (h : ℕ) (name : Bytes) (m : Meta) (o : PutOpts)
    (s : Store)
    → (reserve_clip s.quota).1 ≡ true
    → (s.handles h).live ≡ none
    → Inv s
    → Inv (mint k now random h name m o (record s { quota = (reserve_clip s.quota).0 })).0
unfolding mint
mint-Inv k now random h name m o s e f v =
    elim (Sum-cases (allocate now random (s.handles h).last_prefix)) [
      | inr (err, a) ↦ rw (a, mint) (Drops-Inv (keep-Drops s e v) v)
      | inl ((id, seed), a) ↦ elim (Option-cases (k.create id)) [
        | inr (err, c) ↦ rw (a, mint) (rw c (Drops-Inv (refund-Drops s h seed e v) v))
        | inl c ↦
            rw (a, mint)
              (rw c (
                install-Inv s (reserve_clip s.quota).0 h _ (reserved_bytes s.quota)
                  (reserved_clips s.quota e) f refl refl refl v))
      ]
    ]

pub admit-Inv :
    (k : Medium) (now : ℕ) (random : ℕ ⊎ Error) (h : ℕ) (name : Bytes) (m : Meta) (o : PutOpts)
    (s : Store)
    → Inv s
    → Inv (admit k now random h name m o s).0
unfolding admit
admit-Inv k now random h name m o s v =
    elim (Bool-cases
      (not (bytes_eq o.if_match []) && not (matches s (present_current s h now) o.if_match))) [
        | inl e ↦ rw (e, admit) v
        | inr e ↦ elim (Option-cases (s.handles h).live) [
          | inr (g, f) ↦ rw (e, admit) (rw f v)
          | inl f ↦ elim (Bool-cases (reserve_clip s.quota).1) [
            | inr r ↦ rw (e, admit) (rw f (rw r v))
            | inl r ↦ rw (e, admit) (rw f (rw r (mint-Inv k now random h name m o s r f v)))
          ]
        ]
      ]

created-Inv : (s : Store) (h : ℕ) (r : ℕ ⊎ Error) → Inv s → Inv (created s h r).0
created-Inv s h (inl g) v = v
created-Inv s h (inr e) v = Drops-Inv (release_handle-Drops s h) v

create_once-Inv :
    (k : Medium) (now : ℕ) (random : ℕ ⊎ Error) (name : Bytes) (m : Meta) (o : PutOpts) (s : Store)
    → Inv s
    → Inv (create_once k now random name m o s).0
unfolding create_once transition_result
create_once-Inv k now random name m o s v = elim (Option-cases (valid_name name)) [
  | inr (e, b) ↦ rw (b, create_once) v
  | inl b ↦
      let (t, h) = acquire s name in
      let a =
        admit-Inv k now random h name (normalized m) o t (Drops-Inv (acquire-Drops s name) v) in
      rw (b, create_once) (created-Inv _ h _ (Drops-Inv (wake_if-Drops _ _ h) a))
]

pub create-Inv :
    (k : Medium) (i : CreateInputs) (name : Bytes) (m : Meta) (o : PutOpts) (s : Store)
    → Inv s
    → Inv (create k i name m o s).0
unfolding create
create-Inv k i name m o s v =
    let first = create_once k i.now i.random name m o s in
    let w = create_once-Inv k i.now i.random name m o s v in
    let swept = reclaim_expired-Inv k first.0 i.sweep_now w in
    elim (Bool-cases (is_full first.1)) [
      | inr e ↦ rw (e, create) w
      | inl e ↦ elim (Bool-cases (reclaim_expired k first.0 i.sweep_now).1) [
        | inr f ↦ rw (e, create) (rw f swept)
        | inl f ↦
            rw (e, create) (rw f (create_once-Inv k i.retry_now i.retry_random name m o _ swept))
      ]
    ]
