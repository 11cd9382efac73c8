-- ===== src/Store/Invariant/Claiming.antt =====
-- A turn of `Open`, its claim and its error returns keep the invariant, and a claim whose bytes
-- still stand is in the hands of the reader that it returns.
use buff.Common.{
  ℕ, ◌<◌, ◌≡◌, refl, ◌≢◌, Bool, true, false, ◌&&◌, Option, none, some, arith, Option-cases,
  Bool-cases, Sum-cases, inl, inr, Bytes,
}
use buff.Clip.Errors.{Error}
use buff.Clip.Name.{valid_name}
use buff.Buffer.{Backing}
use buff.Store.Generation.{GenState, live, finalized, consumed, is_finalized}
use buff.Store.State.{Store}
use buff.Store.Medium.{Medium}
use buff.Store.Gate.{await_turn, answers, wake_if, wake_locked}
use buff.Store.Resolve.{resolve_read_policy, follow_resolve_skips}
use buff.Store.Open.{
  OpenResult, OpenCall, OpenTurn, opened, failing, waiting, GetOpts, open_bytes, set_state,
  after_claim, commit_read, open_start, capture, resolve, waitable, open_turn, open_fail,
  open_cancel, conclude,
}
use buff.Store.Accounting.{total-update, held_bytes, held_clips}
use buff.Store.Invariant.{Inv, Drops-Inv}
use buff.Store.Invariant.Registry.{acquire-Drops, release_handle-Drops, wake_if-Drops}
use buff.Store.Invariant.Reading.{IsClaimed, cleanup_consumed-Inv}

-- What a resolution gives: an allocated generation that has its bytes if it is finalized.
pub record IsServed (s : Store) (g : ℕ) : Type 0 where
  pub allocated : g < s.next_gen
  pub homed : (s.heap g).state ≡ finalized → (s.heap g).home ≡ true

pub resolve-IsServed :
    (c : OpenCall) (now : ℕ) (s : Store) (g : ℕ) → resolve c now s ≡ inl g → Inv s → IsServed s g
unfolding resolve
resolve-IsServed c now s g e v = elim (Bool-cases c.opts.follow_next) [
  | inl f ↦ elim (follow_resolve_skips s c.handle now g c.baseline (rw (f, resolve) at e)) [
    | inl (cur, _) ↦
        let (a, _, h) = v.current_gen c.handle g cur.0 in record { allocated = a; homed = h }
    | inr log ↦
        let (a, _, h) = v.live_gen c.handle g log.0 in record { allocated = a; homed = λ q. h }
  ]
  | inr f ↦ elim ((resolve_read_policy s c.handle now).1 g (rw (f, resolve) at e)) [
    | inl cur ↦
        let (a, _, h) = v.current_gen c.handle g cur.0 in record { allocated = a; homed = h }
    | inr (log, _) ↦
        let (a, _, h) = v.live_gen c.handle g log.0 in record { allocated = a; homed = λ q. h }
  ]
]

-- A generation that is not live and has its bytes changes between finalized and consumed.
set_state-Inv :
    (s : Store) (g : ℕ) (st : GenState)
    → g < s.next_gen
    → (s.heap g).state ≢ live
    → (s.heap g).home ≡ true
    → st ≢ live
    → Inv s
    → Inv (set_state s g st)
set_state-Inv s g st l f hm nl v = record {
  current_gen = λ h c e. ground (arith, v.current_gen h c e);
  live_gen = λ h c e. ground (arith, v.live_gen h c e);
  current_once = v.current_once;
  live_once = v.live_once;
  bytes_held = ground (
    arith,
    v.bytes_held,
    total-update held_bytes s.heap s.next_gen g (record (s.heap g) { state = st }) l,
  );
  clips_held = ground (
    arith,
    v.clips_held,
    total-update held_clips s.heap s.next_gen g (record (s.heap g) { state = st }) l,
  );
}

-- What the commit of a read leaves.
abbrev Held : Store → OpenResult → Type 0
Held s r = Inv s × (r.cleanup ≡ true → IsClaimed s r.gen)

open_bytes-Held :
    (b : Backing) (s : Store) (g : ℕ) (name : Bytes) (claimed : Bool)
    → (claimed ≡ true → IsClaimed s g)
    → Inv s
    → Held (open_bytes b s g name claimed).0 (open_bytes b s g name claimed).1
unfolding open_bytes
open_bytes-Held b s g name claimed c v = elim (Option-cases b.open_result) [
  | inl e ↦ rw (e, open_bytes) (v, c)
  | inr (x, e) ↦ rw (e, open_bytes) (v, c)
]

after_claim-Held :
    (b : Backing) (s : Store) (g : ℕ) (name : Bytes) (r : Bool × Option Error)
    → IsClaimed s g
    → Inv s
    → Held (after_claim b s g name r).0 (after_claim b s g name r).1
after_claim-Held b s g name (committed, none) c v = open_bytes-Held b s g name true (λ e. c) v
after_claim-Held b s g name (true, some e) c v = (v, λ q. c)
after_claim-Held b s g name (false, some e) c v = (
  set_state-Inv s g finalized c.allocated (λ q. ground (arith, c.claimed)) c.homed (λ q. cc) v,
  λ q. cc,
)

commit_read-Held :
    (k : Medium) (b : Backing) (ctx : Option Error) (name : Bytes) (s : Store) (g : ℕ)
    → IsServed s g
    → Inv s
    → Held (commit_read k b ctx name s g).0 (commit_read k b ctx name s g).1
unfolding commit_read
commit_read-Held k b ctx name s g d v =
    elim (Bool-cases (is_finalized (s.heap g).state && (s.heap g).consume)) [
      | inr e ↦ rw (e, commit_read) (open_bytes-Held b s g name false (λ q. cc) v)
      | inl e ↦
          let f : (s.heap g).state ≡ finalized = ground arith in
          elim (Option-cases ctx) [
            | inr (x, c) ↦ rw (e, commit_read) (rw c (v, λ q. cc))
            | inl c ↦
                let t = set_state s g consumed in
                let claimed : IsClaimed t g = record {
                  allocated = d.allocated;
                  claimed = ground arith;
                  homed = ground (arith, d.homed f);
                } in
                let vt =
                  set_state-Inv s g consumed d.allocated (λ q. ground arith) (d.homed f) (λ q. cc)
                    v in
                rw (e, commit_read)
                  (rw c (after_claim-Held b t g name (k.claim (t.heap g)) claimed vt))
          ]
    ]

open_fail-Inv :
    (s : Store) (c : OpenCall) (cleanup : Bool) (g : ℕ)
    → (cleanup ≡ true → IsClaimed s g)
    → Inv s
    → Inv (open_fail s c cleanup g)
unfolding open_fail
open_fail-Inv s c true g claimed v =
    Drops-Inv (release_handle-Drops _ c.handle) (cleanup_consumed-Inv s c.handle g (claimed refl) v)
open_fail-Inv s c false g claimed v = Drops-Inv (release_handle-Drops s c.handle) v

-- A reader that is to clean up holds a claimed generation.
abbrev pub Reads : Store → OpenTurn → Type 0
Reads s (opened r clip) = r.cleanup ≡ true → IsClaimed s r.gen
Reads s (failing e) = Unit {0}
Reads s (waiting c n) = Unit {0}

conclude-Inv :
    (elapsed : Bool) (c : OpenCall) (s : Store) (r : OpenResult)
    → Held s r
    → let o = conclude elapsed c s (answers r) in Inv o.0 × Reads o.0 o.1
conclude-Inv elapsed c s r (v, claimed) = elim (Sum-cases r.outcome) [
  | inl (clip, e) ↦ rw e (v, claimed)
  | inr (x, e) ↦ rw e (open_fail-Inv s c r.cleanup r.gen claimed v, tt)
]

Held-wake_if :
    (wake : Bool) (s : Store) (h : ℕ) (r : OpenResult) → Held s r → Held (wake_if wake s h) r
unfolding wake_locked
Held-wake_if true s h r (v, c) = (
  Drops-Inv (wake_if-Drops true s h) v,
  λ e. record { allocated = (c e).allocated; claimed = (c e).claimed; homed = (c e).homed },
)
Held-wake_if false s h r d = d

pub open_turn-Inv :
    (k : Medium) (b : Backing) (ctx : Option Error) (elapsed : Bool) (now : ℕ) (s : Store)
    (c : OpenCall)
    → Inv s
    → let r = open_turn k b ctx elapsed now s c in Inv r.0 × Reads r.0 r.1
unfolding open_turn await_turn
open_turn-Inv k b ctx elapsed now s c v =
    let c' = capture s c in
    elim (Sum-cases (resolve c' now s)) [
      | inl (g, e) ↦
          rw (e, await_turn)
            (conclude-Inv elapsed c' _ _ (
              Held-wake_if _ _ c'.handle (commit_read k b ctx c'.name s g).1
                (commit_read-Held k b ctx c'.name s g (resolve-IsServed c' now s g e v) v)))
      | inr (x, e) ↦ elim (Bool-cases (waitable c' x)) [
        | inl w ↦ rw (e, await_turn) (rw w (v, tt))
        | inr w ↦ rw (e, await_turn) (rw w (open_fail-Inv s c' false 0 (λ q. cc) v, tt))
      ]
    ]

pub open_start-Inv :
    (name : Bytes) (o : GetOpts) (ctx : Option Error) (s : Store)
    → Inv s
    → Inv (open_start name o ctx s).0
unfolding open_start
open_start-Inv name o ctx s v = elim (Option-cases (valid_name name)) [
  | inr (e, b) ↦ rw (b, open_start) v
  | inl b ↦ elim (Option-cases ctx) [
    | inr (e, c) ↦ rw (b, open_start) (rw c v)
    | inl c ↦ rw (b, open_start) (rw c (Drops-Inv (acquire-Drops s name) v))
  ]
]

pub open_cancel-Inv :
    (s : Store) (c : OpenCall) (elapsed : Bool) (e : Error)
    → Inv s
    → Inv (open_cancel s c elapsed e).0
unfolding open_cancel
open_cancel-Inv s c elapsed e v = open_fail-Inv s c false 0 (λ q. cc) v
