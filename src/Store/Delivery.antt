-- ===== src/Store/Delivery.antt =====
-- A consume-once value is delivered at most once.
use buff.Common.{
  ℕ, ◌<◌, ◌≡◌, refl, sym, ◌∙◌, ◌≢◌, Bool, true, false, Option, arith, Bool-cases, Sum-cases, inl,
  inr, ◌⊎◌, Bytes,
}
use buff.Clip.Errors.{Error}
use buff.Clip.Meta.{Clip}
use buff.Buffer.{Backing}
use buff.Store.Quota.{Config}
use buff.Store.Generation.{live, finalized, consumed, clip_of}
use buff.Store.State.{Store, new_store}
use buff.Store.Medium.{Medium}
use buff.Store.Gate.{await_turn, answers, wake_if, wake_locked}
use buff.Store.Resolve.{resolve_read_policy, follow_resolve_skips}
use buff.Store.Open.{
  OpenResult, OpenCall, opened, LeasedReader, open_bytes, commit_read, capture, resolve, waitable,
  open_turn, conclude,
}
use buff.Store.Invariant.{Inv}
use buff.Store.Invariant.Claiming.{resolve-IsServed}
use buff.Store.Ages.{Ages, Ages-refl, Ages-trans, reap_expired-Ages}
use buff.Store.Ages.Writing.{create-Ages, write-Ages, close-Ages, abort-Ages}
use buff.Store.Ages.Reading.{
  open_start-Ages, open_turn-Ages, open_cancel-Ages, close_reader-Ages, stat-Ages, delete-Ages,
}
use buff.Store.History.{
  Call, creates, writes, closes, aborts, starts_open, turns_open, cancels_open, closes_reader,
  stats, deletes, reaps, Reach, here, next, Call-Inv, Reach-accounts,
}

-- A resolution gives a finalized value, or a live log that is no secret.
resolve_state :
    (c : OpenCall) (now : ℕ) (s : Store) (g : ℕ)
    → resolve c now s ≡ inl g
    → Inv s
    → ((s.heap g).state ≡ finalized) ⊎ (((s.heap g).state ≡ live) × ((s.heap g).consume ≡ false))
unfolding resolve
resolve_state c now s g e v = elim (Bool-cases c.opts.follow_next) [
  | inl f ↦ elim (follow_resolve_skips s c.handle now g c.baseline (rw (f, resolve) at e)) [
    | inl (cur, _) ↦ inl cur.1
    | inr log ↦ inr ((v.live_gen c.handle g log.0).1, log.1)
  ]
  | inr f ↦ elim ((resolve_read_policy s c.handle now).1 g (rw (f, resolve) at e)) [
    | inl cur ↦ inl cur.1
    | inr (log, _) ↦ inr ((v.live_gen c.handle g log.0).1, log.1)
  ]
]

Call-Ages : {s t : Store} → Inv s → Call s t → Ages s t
Call-Ages {s} v (creates k i name m o e) = rw e (create-Ages k i name m o s)
Call-Ages {s} v (writes k b w p now h o e) = rw e (write-Ages k b s w p now)
Call-Ages {s} v (closes k b w now o e) =
    rw e (close-Ages k b s w now (λ d. (v.live_gen w.handle w.gen (o d).pointed).1))
Call-Ages {s} v (aborts b w o e) = rw e (abort-Ages b s w)
Call-Ages {s} v (starts_open name o ctx e) = rw e (open_start-Ages name o ctx s)
Call-Ages {s} v (turns_open k b ctx elapsed now c e) = rw e (open_turn-Ages k b ctx elapsed now s c)
Call-Ages {s} v (cancels_open c elapsed x e) = rw e (open_cancel-Ages s c elapsed x)
Call-Ages {s} v (closes_reader r h e) = rw e (close_reader-Ages s r)
Call-Ages {s} v (stats name now e) = rw e (stat-Ages name now s)
Call-Ages {s} v (deletes k name now e) = rw e (delete-Ages k name now s)
Call-Ages {s} v (reaps k now e) = rw e (reap_expired-Ages k s now)

Reach-Inv : {s t : Store} → Inv s → Reach s t → Inv t
Reach-Inv v here = v
Reach-Inv v (next r m) = Call-Inv m (Reach-Inv v r)

Reach-Ages : {s t : Store} → Inv s → Reach s t → Ages s t
Reach-Ages {s} v here = Ages-refl s
Reach-Ages v (next r m) = Ages-trans (Reach-Ages v r) (Call-Ages (Reach-Inv v r) m)

-- A claimed generation is served to no read.
claimed_never_served :
    {s t : Store} (g : ℕ)
    → Inv s
    → g < s.next_gen
    → (s.heap g).state ≡ consumed
    → Reach s t
    → (c : OpenCall) (now : ℕ) → resolve c now t ≢ inl g
claimed_never_served {s} {t} g v l e r c now q =
    let a = (Reach-Ages v r).stays g l e in
    elim (resolve_state c now t g q (Reach-Inv v r)) [
      | inl f ↦ ground arith
      | inr (f, _) ↦ ground arith
    ]

-- Opening the bytes of a secret value means that it was claimed.
commit_claims :
    (k : Medium) (b : Backing) (ctx : Option Error) (name : Bytes) (s : Store) (g : ℕ) (clip : Clip)
    → ((s.heap g).state ≡ finalized) ⊎ (((s.heap g).state ≡ live) × ((s.heap g).consume ≡ false))
    → (commit_read k b ctx name s g).1.outcome ≡ inl clip
    → clip.consume_once ≡ true
    → let t = (commit_read k b ctx name s g).0 in
      ((t.heap g).state ≡ consumed)
      × ((commit_read k b ctx name s g).1.gen ≡ g)
      × (t.next_gen ≡ s.next_gen)
unfolding commit_read open_bytes clip_of
commit_claims k b ctx name s g clip st e o = ground arith

concluded :
    (elapsed : Bool) (c : OpenCall) (s : Store) (o : OpenResult) (r : LeasedReader) (clip : Clip)
    → (conclude elapsed c s (answers o)).1 ≡ opened r clip
    → (o.outcome ≡ inl clip) × (o.gen ≡ r.gen) × ((conclude elapsed c s (answers o)).0 ≡ s)
concluded elapsed c s o r clip e = elim (Sum-cases o.outcome) [
  | inl (x, f) ↦
      let e' : opened
            (record { handle = c.handle; gen = o.gen; cleanup = o.cleanup; closed = false }) x
          ≡ opened r clip =
        rw f at e in
      (f ∙ cc, ground arith, rw f)
  | inr (x, f) ↦ ground arith
]

heap-wake_if : (wake : Bool) (s : Store) (h : ℕ) → (wake_if wake s h).heap ≡ s.heap
unfolding wake_locked
heap-wake_if true s h = refl
heap-wake_if false s h = refl

next_gen-wake_if : (wake : Bool) (s : Store) (h : ℕ) → (wake_if wake s h).next_gen ≡ s.next_gen
unfolding wake_locked
next_gen-wake_if true s h = refl
next_gen-wake_if false s h = refl

-- A turn that opens a secret value leaves it claimed.
opened_claims :
    (k : Medium) (b : Backing) (ctx : Option Error) (elapsed : Bool) (now : ℕ) (s : Store)
    (c : OpenCall) (r : LeasedReader) (clip : Clip)
    → Inv s
    → (open_turn k b ctx elapsed now s c).1 ≡ opened r clip
    → clip.consume_once ≡ true
    → (((open_turn k b ctx elapsed now s c).0.heap r.gen).state ≡ consumed)
      × (r.gen < (open_turn k b ctx elapsed now s c).0.next_gen)
unfolding open_turn await_turn
opened_claims k b ctx elapsed now s c r clip v e o =
    let c' = capture s c in
    elim (Sum-cases (resolve c' now s)) [
      | inr (x, f) ↦ elim (Bool-cases (waitable c' x)) [
        | inl w ↦ ground arith
        | inr w ↦ ground arith
      ]
      | inl (g, f) ↦
          let (t, res, wake) = commit_read k b ctx c'.name s g in
          let u = wake_if wake t c'.handle in
          let (out, gen, same) = concluded elapsed c' u res r clip (rw (f, await_turn) at e) in
          let (done, is_g, next_same) =
            commit_claims k b ctx c'.name s g clip (resolve_state c' now s g f v) out o in
          let is_r : r.gen ≡ g = sym gen ∙ is_g in
          rw (f, await_turn)
            (rw
              (
                same,
                is_r,
                heap-wake_if wake t c'.handle,
                next_gen-wake_if wake t c'.handle,
                next_same,
              )
              (done, (resolve-IsServed c' now s g f v).allocated))
    ]

-- In any history of a new store, the turn of `Open` that returns a reader of a consume-once clip is
-- the last one to which that generation resolves: in no later state does a read of any name, plain
-- or following, resolve to it.
pub delivered_once :
    (config : Config) {s t : Store}
    → Reach (new_store config) s
    → (k : Medium) (b : Backing) (ctx : Option Error) (elapsed : Bool) (now : ℕ) (c : OpenCall)
    → (r : LeasedReader) (clip : Clip) → (open_turn k b ctx elapsed now s c).1 ≡ opened r clip
    → clip.consume_once ≡ true
    → Reach (open_turn k b ctx elapsed now s c).0 t
    → (d : OpenCall) (later : ℕ) → resolve d later t ≢ inl r.gen
delivered_once config {s} past_calls k b ctx elapsed now c r clip e o future d later =
    let v = Reach-accounts config past_calls in
    let (done, known) = opened_claims k b ctx elapsed now s c r clip v e o in
    claimed_never_served r.gen (Call-Inv {s = s} (turns_open k b ctx elapsed now c refl) v) known
      done future d later
