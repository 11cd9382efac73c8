-- ===== src/Store/Ages/Reading.antt =====
-- No call of a reader unclaims a generation: the reads, `Stat` and `Delete`.
use buff.Common.{
  ℕ, ◌≡◌, refl, Bool, true, false, ◌&&◌, Option, none, some, arith, Bool-cases, Option-cases,
  Sum-cases, inl, inr, Bytes,
}
use buff.Clip.Errors.{Error}
use buff.Clip.Name.{valid_name}
use buff.Buffer.{Backing}
use buff.Store.Generation.{finalized, consumed, is_finalized}
use buff.Store.State.{Store, acquire}
use buff.Store.Medium.{Medium}
use buff.Store.Gate.{wake_if, transition, transition_result, await_turn, answers}
use buff.Store.Resolve.{present_current}
use buff.Store.Reclaim.{reclaim, cleanup_consumed, points_to}
use buff.Store.Open.{
  OpenCall, OpenResult, GetOpts, LeasedReader, open_start, open_turn, open_cancel, open_fail,
  open_bytes, after_claim, commit_read, set_state, close_reader, capture, resolve, waitable,
  conclude,
}
use buff.Store.Manage.{stat, retire_current, delete}
use buff.Store.Invariant.Registry.{
  acquire-Drops, release_handle-Drops, wake_if-Drops, drop_current-Drops,
}
use buff.Store.Ages.{
  Ages, Ages-refl, Ages-trans, Ages-Drops, put_gen-Ages, reclaim-Ages, retire-Ages,
  wake_reclaim_release-Ages,
}

cleanup_consumed-Ages : (s : Store) (h g : ℕ) → Ages s (cleanup_consumed s h g)
unfolding cleanup_consumed transition
cleanup_consumed-Ages s h g =
    let t = reclaim s g in
    elim (Bool-cases (points_to (t.handles h).current g)) [
      | inl e ↦
          rw (e, cleanup_consumed)
            (Ages-trans (reclaim-Ages s g) (
              Ages-trans (Ages-Drops (drop_current-Drops t h))
                (Ages-Drops (wake_if-Drops true _ h))))
      | inr e ↦ rw (e, cleanup_consumed) (reclaim-Ages s g)
    ]

open_fail-Ages :
    (s : Store) (c : OpenCall) (cleanup : Bool) (g : ℕ) → Ages s (open_fail s c cleanup g)
unfolding open_fail
open_fail-Ages s c true g =
    Ages-trans (cleanup_consumed-Ages s c.handle g) (Ages-Drops (release_handle-Drops _ c.handle))
open_fail-Ages s c false g = Ages-Drops (release_handle-Drops s c.handle)

open_bytes-Ages :
    (b : Backing) (s : Store) (g : ℕ) (name : Bytes) (claimed : Bool)
    → Ages s (open_bytes b s g name claimed).0
unfolding open_bytes
open_bytes-Ages b s g name claimed = elim (Option-cases b.open_result) [
  | inl e ↦ rw (e, open_bytes) (Ages-refl s)
  | inr (x, e) ↦ rw (e, open_bytes) (Ages-refl s)
]

after_claim-Ages :
    (b : Backing) (s : Store) (g : ℕ) (name : Bytes) (r : Bool × Option Error)
    → (s.heap g).state ≡ finalized
    → Ages s (after_claim b (set_state s g consumed) g name r).0
after_claim-Ages b s g name (committed, none) f =
    Ages-trans (put_gen-Ages s g (record (s.heap g) { state = consumed }) (λ e. refl))
      (open_bytes-Ages b (set_state s g consumed) g name true)
after_claim-Ages b s g name (true, some e) f =
    put_gen-Ages s g (record (s.heap g) { state = consumed }) (λ e. refl)
after_claim-Ages b s g name (false, some e) f =
    let a = put_gen-Ages s g (record (s.heap g) { state = finalized }) (λ e. cc) in
    record { next_le = a.next_le; stays = λ c l e. ground (arith, a.stays c l e) }

commit_read-Ages :
    (k : Medium) (b : Backing) (ctx : Option Error) (name : Bytes) (s : Store) (g : ℕ)
    → Ages s (commit_read k b ctx name s g).0
unfolding commit_read
commit_read-Ages k b ctx name s g =
    elim (Bool-cases (is_finalized (s.heap g).state && (s.heap g).consume)) [
      | inr e ↦ rw (e, commit_read) (open_bytes-Ages b s g name false)
      | inl e ↦ elim (Option-cases ctx) [
        | inr (x, c) ↦ rw (e, commit_read) (rw c (Ages-refl s))
        | inl c ↦ rw (e, commit_read) (rw c (after_claim-Ages b s g name _ (ground arith)))
      ]
    ]

conclude-Ages :
    (elapsed : Bool) (c : OpenCall) (s : Store) (r : OpenResult)
    → Ages s (conclude elapsed c s (answers r)).0
conclude-Ages elapsed c s r = elim (Sum-cases r.outcome) [
  | inl (clip, e) ↦ rw e (Ages-refl s)
  | inr (x, e) ↦ rw e (open_fail-Ages s c r.cleanup r.gen)
]

pub open_turn-Ages :
    (k : Medium) (b : Backing) (ctx : Option Error) (elapsed : Bool) (now : ℕ) (s : Store)
    (c : OpenCall)
    → Ages s (open_turn k b ctx elapsed now s c).0
unfolding open_turn await_turn
open_turn-Ages k b ctx elapsed now s c =
    let c' = capture s c in
    elim (Sum-cases (resolve c' now s)) [
      | inl (g, e) ↦
          let (t, r, wake) = commit_read k b ctx c'.name s g in
          rw (e, await_turn)
            (Ages-trans (commit_read-Ages k b ctx c'.name s g) (
              Ages-trans (Ages-Drops (wake_if-Drops wake t c'.handle))
                (conclude-Ages elapsed c' (wake_if wake t c'.handle) r)))
      | inr (x, e) ↦ elim (Bool-cases (waitable c' x)) [
        | inl w ↦ rw (e, await_turn) (rw w (Ages-refl s))
        | inr w ↦ rw (e, await_turn) (rw w (open_fail-Ages s c' false 0))
      ]
    ]

pub open_start-Ages :
    (name : Bytes) (o : GetOpts) (ctx : Option Error) (s : Store)
    → Ages s (open_start name o ctx s).0
unfolding open_start
open_start-Ages name o ctx s = elim (Option-cases (valid_name name)) [
  | inr (e, b) ↦ rw (b, open_start) (Ages-refl s)
  | inl b ↦ elim (Option-cases ctx) [
    | inr (e, c) ↦ rw (b, open_start) (rw c (Ages-refl s))
    | inl c ↦ rw (b, open_start) (rw c (Ages-Drops (acquire-Drops s name)))
  ]
]

pub open_cancel-Ages :
    (s : Store) (c : OpenCall) (elapsed : Bool) (e : Error) → Ages s (open_cancel s c elapsed e).0
unfolding open_cancel
open_cancel-Ages s c elapsed e = open_fail-Ages s c false 0

pub close_reader-Ages : (s : Store) (r : LeasedReader) → Ages s (close_reader s r).0
unfolding close_reader
close_reader-Ages s r = elim (Bool-cases r.closed) [
  | inl e ↦ rw (e, close_reader) (Ages-refl s)
  | inr e ↦ elim (Bool-cases r.cleanup) [
    | inl f ↦
        rw (e, close_reader)
          (rw f (
            Ages-trans (cleanup_consumed-Ages s r.handle r.gen)
              (Ages-Drops (release_handle-Drops _ r.handle))))
    | inr f ↦ rw (e, close_reader) (rw f (Ages-Drops (release_handle-Drops s r.handle)))
  ]
]

pub stat-Ages : (name : Bytes) (now : ℕ) (s : Store) → Ages s (stat name now s).0
unfolding stat
stat-Ages name now s = elim (Option-cases (valid_name name)) [
  | inr (e, b) ↦ rw (b, stat) (Ages-refl s)
  | inl b ↦
      rw (b, stat)
        (Ages-trans (Ages-Drops (acquire-Drops s name))
          (Ages-Drops (release_handle-Drops _ (acquire s name).1)))
]

retire_current-Ages : (k : Medium) (now h : ℕ) (s : Store) → Ages s (retire_current k now h s).0
unfolding retire_current
retire_current-Ages k now h s = elim (Option-cases (present_current s h now)) [
  | inl e ↦ rw (e, retire_current) (Ages-refl s)
  | inr (g, e) ↦ rw (e, retire_current) (retire-Ages k s h g)
]

pub delete-Ages : (k : Medium) (name : Bytes) (now : ℕ) (s : Store) → Ages s (delete k name now s).0
unfolding delete transition_result
delete-Ages k name now s = elim (Option-cases (valid_name name)) [
  | inr (e, b) ↦ rw (b, delete) (Ages-refl s)
  | inl b ↦
      let (t, h) = acquire s name in
      rw (b, delete)
        (Ages-trans (Ages-Drops (acquire-Drops s name))
          (Ages-trans (retire_current-Ages k now h t) (wake_reclaim_release-Ages _ _ h h _)))
]
