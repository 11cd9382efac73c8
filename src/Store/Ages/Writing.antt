-- ===== src/Store/Ages/Writing.antt =====
-- No call of a writer unclaims a generation: `Create`, `Write`, `Close`, `Abort`.
use buff.Common.{
  ℕ, ◌≡◌, true, false, not, ◌&&◌, Option, none, some, arith, Bool-cases, Option-cases, Sum-cases,
  inl, inr, ◌⊎◌, [], Bytes, bytes_eq, length,
}
use buff.Clip.Errors.{Error}
use buff.Clip.Meta.{Meta, normalized}
use buff.Clip.Name.{valid_name}
use buff.Buffer.{Backing, sync}
use buff.Store.GenId.{allocate}
use buff.Store.Quota.{reserve_clip, reserve, per_clip_ok}
use buff.Store.Generation.{live, finalized}
use buff.Store.State.{Store, put_handle, acquire}
use buff.Store.Medium.{Medium}
use buff.Store.Gate.{wake_if, transition, transition_result}
use buff.Store.Resolve.{present_current}
use buff.Store.Reaper.{reclaim_expired}
use buff.Store.Create.{
  PutOpts, CreateInputs, Writer, mint, admit, matches, created, create_once, create, is_full,
}
use buff.Store.Writer.{
  reserve_chunk, append_chunk, write, discard, fail_close, publish, commit_close, after_finalize,
  close, abort, stamp,
}
use buff.Store.Invariant.Registry.{acquire-Drops, release_handle-Drops, wake_if-Drops}
use buff.Store.Ages.{
  Ages, Ages-refl, Ages-trans, Ages-Drops, put_gen-Ages, reclaim-Ages, reclaim_some-Ages,
  reclaim_expired-Ages,
}

mint-Ages :
    (k : Medium) (now : ℕ) (random : ℕ ⊎ Error) (h : ℕ) (name : Bytes) (m : Meta) (o : PutOpts)
    (s : Store)
    → Ages s (mint k now random h name m o s).0
unfolding mint
mint-Ages k now random h name m o s =
    elim (Sum-cases (allocate now random (s.handles h).last_prefix)) [
      | inr (err, a) ↦ rw (a, mint) (record { next_le = omega arith; stays = λ g l e. e })
      | inl ((id, seed), a) ↦ elim (Option-cases (k.create id)) [
        | inr (err, c) ↦ rw (a, mint) (rw c (record { next_le = omega arith; stays = λ g l e. e }))
        | inl c ↦
            rw (a, mint) (rw c (record { next_le = omega arith; stays = λ g l e. ground arith }))
      ]
    ]

mint_reserved-Ages :
    (k : Medium) (now : ℕ) (random : ℕ ⊎ Error) (h : ℕ) (name : Bytes) (m : Meta) (o : PutOpts)
    (s : Store)
    → Ages s (mint k now random h name m o (record s { quota = (reserve_clip s.quota).0 })).0
mint_reserved-Ages k now random h name m o s =
    let a = mint-Ages k now random h name m o (record s { quota = (reserve_clip s.quota).0 }) in
    record { next_le = a.next_le; stays = a.stays }

admit-Ages :
    (k : Medium) (now : ℕ) (random : ℕ ⊎ Error) (h : ℕ) (name : Bytes) (m : Meta) (o : PutOpts)
    (s : Store)
    → Ages s (admit k now random h name m o s).0
unfolding admit
admit-Ages k now random h name m o s =
    elim (Bool-cases
      (not (bytes_eq o.if_match []) && not (matches s (present_current s h now) o.if_match))) [
        | inl e ↦ rw (e, admit) (Ages-refl s)
        | inr e ↦ elim (Option-cases (s.handles h).live) [
          | inr (g, f) ↦ rw (e, admit) (rw f (Ages-refl s))
          | inl f ↦ elim (Bool-cases (reserve_clip s.quota).1) [
            | inr r ↦ rw (e, admit) (rw f (rw r (Ages-refl s)))
            | inl r ↦ rw (e, admit) (rw f (rw r (mint_reserved-Ages k now random h name m o s)))
          ]
        ]
      ]

created-Ages : (s : Store) (h : ℕ) (r : ℕ ⊎ Error) → Ages s (created s h r).0
created-Ages s h (inl g) = Ages-refl s
created-Ages s h (inr e) = Ages-Drops (release_handle-Drops s h)

create_once-Ages :
    (k : Medium) (now : ℕ) (random : ℕ ⊎ Error) (name : Bytes) (m : Meta) (o : PutOpts) (s : Store)
    → Ages s (create_once k now random name m o s).0
unfolding create_once transition_result
create_once-Ages k now random name m o s = elim (Option-cases (valid_name name)) [
  | inr (e, b) ↦ rw (b, create_once) (Ages-refl s)
  | inl b ↦
      let (t, h) = acquire s name in
      rw (b, create_once)
        (Ages-trans (Ages-Drops (acquire-Drops s name)) (
          Ages-trans (admit-Ages k now random h name (normalized m) o t)
            (Ages-trans (Ages-Drops (wake_if-Drops _ _ h)) (created-Ages _ h _))))
]

pub create-Ages :
    (k : Medium) (i : CreateInputs) (name : Bytes) (m : Meta) (o : PutOpts) (s : Store)
    → Ages s (create k i name m o s).0
unfolding create
create-Ages k i name m o s =
    let first = create_once k i.now i.random name m o s in
    let w = create_once-Ages k i.now i.random name m o s in
    let swept = Ages-trans w (reclaim_expired-Ages k first.0 i.sweep_now) in
    elim (Bool-cases (is_full first.1)) [
      | inr e ↦ rw (e, create) w
      | inl e ↦ elim (Bool-cases (reclaim_expired k first.0 i.sweep_now).1) [
        | inr f ↦ rw (e, create) (rw f swept)
        | inl f ↦
            rw (e, create)
              (rw f (Ages-trans swept (create_once-Ages k i.retry_now i.retry_random name m o _)))
      ]
    ]

append_chunk-Ages :
    (b : Backing) (s : Store) (w : Writer) (p : Bytes) → Ages s (append_chunk b s w p).0
unfolding append_chunk
append_chunk-Ages b s w p = record { next_le = omega arith; stays = λ c l e. ground arith }

reserve_chunk-Ages : (k : Medium) (s : Store) (n now : ℕ) → Ages s (reserve_chunk k s n now).0
unfolding reserve_chunk
reserve_chunk-Ages k s n now = elim (Bool-cases (reserve s.quota n).1) [
  | inl r ↦ rw (r, reserve_chunk) (record { next_le = omega arith; stays = λ g l e. e })
  | inr r ↦
      let a = reclaim_expired-Ages k s now in
      rw (r, reserve_chunk) (record { next_le = a.next_le; stays = a.stays })
]

pub write-Ages :
    (k : Medium) (b : Backing) (s : Store) (w : Writer) (p : Bytes) (now : ℕ)
    → Ages s (write k b s w p now).0
unfolding write
write-Ages k b s w p now = elim (Bool-cases w.done) [
  | inl d ↦ rw (d, write) (Ages-refl s)
  | inr d ↦ elim (Bool-cases (not (per_clip_ok s.quota w.written (length p)))) [
    | inl c ↦ rw (d, write) (rw c (Ages-refl s))
    | inr c ↦ elim (Bool-cases (reserve_chunk k s (length p) now).1) [
      | inl r ↦
          rw (d, write)
            (rw c (
              rw r
                (Ages-trans (reserve_chunk-Ages k s (length p) now) (append_chunk-Ages b _ w p))))
      | inr r ↦ rw (d, write) (rw c (rw r (reserve_chunk-Ages k s (length p) now)))
    ]
  ]
]

discard-Ages : (b : Backing) (s : Store) (w : Writer) → Ages s (discard b s w).0
unfolding discard transition
discard-Ages b s w =
    let t = put_handle s w.handle (record (s.handles w.handle) { live = none }) in
    let u = wake_if true t w.handle in
    Ages-trans {t = t} (record { next_le = omega arith; stays = λ g l e. e })
      (Ages-trans {t = u} (Ages-Drops (wake_if-Drops true t w.handle)) (
        Ages-trans (put_gen-Ages u w.gen _ (λ e. e))
          (Ages-trans (reclaim-Ages _ w.gen) (Ages-Drops (release_handle-Drops _ w.handle)))))

commit_close-Ages :
    (b : Backing) (s : Store) (w : Writer)
    → (s.heap w.gen).state ≡ live
    → Ages s (commit_close b s w).0
unfolding commit_close transition_result publish
commit_close-Ages b s w l =
    let a = put_gen-Ages s w.gen (record (s.heap w.gen) { state = finalized }) (λ e. cc) in
    let t = (publish w s).0 in
    let u = wake_if true t w.handle in
    Ages-trans {t = t} (record { next_le = a.next_le; stays = a.stays })
      (Ages-trans {t = u} (Ages-Drops (wake_if-Drops true t w.handle)) (
        Ages-trans (put_gen-Ages u w.gen _ (λ e. e))
          (Ages-trans (reclaim_some-Ages _ _) (Ages-Drops (release_handle-Drops _ w.handle)))))

fail_close-Ages : (b : Backing) (s : Store) (w : Writer) (e : Error) → Ages s (fail_close b s w e).0
unfolding fail_close
fail_close-Ages b s w e = discard-Ages b s w

after_finalize-Ages :
    (b : Backing) (s : Store) (w : Writer) (r : Option Error)
    → (s.heap w.gen).state ≡ live
    → Ages s (after_finalize b s w r).0
after_finalize-Ages b s w none l = commit_close-Ages b s w l
after_finalize-Ages b s w (some e) l = fail_close-Ages b s w e

pub close-Ages :
    (k : Medium) (b : Backing) (s : Store) (w : Writer) (now : ℕ)
    → (w.done ≡ false → (s.heap w.gen).state ≡ live)
    → Ages s (close k b s w now).0
unfolding close
close-Ages k b s w now l = elim (Bool-cases w.done) [
  | inl d ↦ rw (d, close) (Ages-refl s)
  | inr d ↦
      let t = stamp s w.gen now in
      let a : Ages s t = put_gen-Ages s w.gen _ (λ e. e) in
      let lt : (t.heap w.gen).state ≡ live = ground (arith, l d) in
      elim (Option-cases (sync b (t.heap w.gen).buf)) [
        | inr (e, f) ↦ rw (d, close) (rw f (Ages-trans a (fail_close-Ages b t w e)))
        | inl f ↦ rw (d, close) (rw f (Ages-trans a (after_finalize-Ages b t w _ lt)))
      ]
]

pub abort-Ages : (b : Backing) (s : Store) (w : Writer) → Ages s (abort b s w).0
unfolding abort
abort-Ages b s w = elim (Bool-cases w.done) [
  | inl d ↦ rw (d, abort) (Ages-refl s)
  | inr d ↦ rw (d, abort) (discard-Ages b s w)
]
