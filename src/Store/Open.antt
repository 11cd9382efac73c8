-- ===== src/Store/Open.antt =====
-- store/store.go (`Open`, `commitRead`, `leasedReader`): a read, its wait and its claim. A call of
-- `Open` that waits is a sequence of turns; between two of them the store is anyone's.
use buff.Common.{
  ℕ, Bool, true, false, not, ◌&&◌, ◌||◌, Option, none, some, ◌⊎◌, inl, inr, ◌++◌, Bytes, codes,
  if◌then◌else◌,
}
use buff.Clip.Errors.{Error, is, not_found, deadline_exceeded, wrap}
use buff.Clip.Name.{valid_name}
use buff.Clip.Meta.{Clip}
use buff.Buffer.{Backing}
use buff.Store.GenId.{GenId, zero_id}
use buff.Store.Generation.{GenState, finalized, consumed, is_finalized, clip_of}
use buff.Store.State.{Store, put_gen, acquire, release_handle}
use buff.Store.Medium.{Medium}
use buff.Store.Gate.{Awaited, answers, refuses, parks, await_turn}
use buff.Store.Resolve.{resolve_read, follow_resolve}
use buff.Store.Reclaim.{cleanup_consumed}

pub record GetOpts : Type 0 where
  pub wait : Bool
  pub follow_next : Bool

-- `openResult`: the reader or the error, and whether a claimed generation is to be cleaned up.
pub record OpenResult : Type 0 where
  pub outcome : Clip ⊎ Error
  pub cleanup : Bool
  pub gen : ℕ

abbrev pub open_error : Bytes → Error → Error
open_error name e = wrap (codes "open " ++ name) e

abbrev pub failed : Bool → ℕ → Error → OpenResult
failed cleanup g e = record { outcome = inr e; cleanup = cleanup; gen = g }

-- The reader of a generation: it opens, or not. `wake` is that the claim took.
unfoldable pub open_bytes : Backing → Store → ℕ → Bytes → Bool → Store × OpenResult × Bool
unfolding clip_of
open_bytes b s g name claimed = elim b.open_result [
  | some e ↦ (s, failed claimed g (open_error name e), claimed)
  | none ↦ (s, record { outcome = inl (clip_of (s.heap g)); cleanup = claimed; gen = g }, claimed)
]

abbrev pub set_state : Store → ℕ → GenState → Store
set_state s g st = put_gen s g (record (s.heap g) { state = st })

abbrev pub after_claim :
    Backing → Store → ℕ → Bytes → Bool × Option Error → Store × OpenResult × Bool
after_claim b s g name (committed, none) = open_bytes b s g name true
after_claim b s g name (true, some e) = (s, failed true g (open_error name e), false)
after_claim b s g name (false, some e) =
    (set_state s g finalized, failed false g (open_error name e), false)

-- `commitRead`: the claim of a consume-once value, and the reader.
unfoldable pub commit_read :
    Medium → Backing → Option Error → Bytes → Store → ℕ → Store × OpenResult × Bool
unfolding open_bytes
commit_read k b ctx name s g =
    if is_finalized (s.heap g).state && (s.heap g).consume
    then (elim ctx [
      | some e ↦ (s, failed false g e, false)
      | none ↦ let s' = set_state s g consumed in after_claim b s' g name (k.claim (s'.heap g))
    ])
    else open_bytes b s g name false

-- The variables of a call of `Open` that its turns share.
pub record OpenCall : Type 0 where
  pub handle : ℕ
  pub name : Bytes
  pub opts : GetOpts
  pub baseline : GenId
  pub captured : Bool

unfoldable pub open_start : Bytes → GetOpts → Option Error → Store → Store × (OpenCall ⊎ Error)
unfolding valid_name acquire
open_start name o ctx s = elim (valid_name name) [
  | some e ↦ (s, inr e)
  | none ↦ elim ctx [
    | some e ↦ (s, inr e)
    | none ↦
        let (t, h) = acquire s name in
        (
          t,
          inl (record {
            handle = h;
            name = name;
            opts = record { wait = o.wait || o.follow_next; follow_next = o.follow_next };
            baseline = zero_id;
            captured = false;
          }),
        )
  ]
]

abbrev current_id : Store → Option ℕ → GenId → GenId
current_id s none default = default
current_id s (some g) default = (s.heap g).id

-- The capture of the generation that a follow of the next value is to skip.
unfoldable pub capture : Store → OpenCall → OpenCall
capture s c =
    if c.opts.follow_next && not c.captured
    then record c {
      baseline = current_id s (s.handles c.handle).current c.baseline;
      captured = true;
    }
    else c

unfoldable pub resolve : OpenCall → ℕ → Store → ℕ ⊎ Error
unfolding follow_resolve resolve_read
resolve c now s =
    if c.opts.follow_next
    then follow_resolve s c.handle c.baseline now
    else resolve_read s c.handle now

abbrev pub waitable : OpenCall → Error → Bool
waitable c e = c.opts.wait && is e not_found

-- `leasedReader`: what a reader holds.
pub record LeasedReader : Type 0 where
  pub handle : ℕ
  pub gen : ℕ
  pub cleanup : Bool
  pub closed : Bool

pub data OpenTurn : Type 0 where
  opened : LeasedReader → Clip → OpenTurn
  failing : Error → OpenTurn
  waiting : OpenCall → ℕ → OpenTurn

-- The error return of `Open`: the cleanup of a claim that opened no reader, and the lease.
unfoldable pub open_fail : Store → OpenCall → Bool → ℕ → Store
unfolding cleanup_consumed release_handle
open_fail s c cleanup g =
    release_handle (if cleanup then cleanup_consumed s c.handle g else s) c.handle

-- `elapsed`: the deadline of the waiting context is the park's own, and it has passed. That deadline
-- reads as not found.
abbrev pub park_error : Bool → Error → Error
park_error elapsed e = if is e deadline_exceeded && elapsed then not_found else e

abbrev pub conclude : Bool → OpenCall → Store → Awaited OpenResult → Store × OpenTurn
conclude elapsed c s (parks n) = (s, waiting c n)
conclude elapsed c s (refuses e) = (open_fail s c false 0, failing (park_error elapsed e))
conclude elapsed c s (answers r) = elim r.outcome [
  | inr e ↦ (open_fail s c r.cleanup r.gen, failing (park_error elapsed e))
  | inl clip ↦ (
    s,
    opened (record { handle = c.handle; gen = r.gen; cleanup = r.cleanup; closed = false }) clip,
  )
]

-- One turn of the loop of `await`, under one hold of the lock, and the return that it leads to.
unfoldable pub open_turn :
    Medium → Backing → Option Error → Bool → ℕ → Store → OpenCall → Store × OpenTurn
open_turn k b ctx elapsed now s c =
    let c' = capture s c in
    let (t, answer) =
      await_turn s c'.handle (resolve c' now) (waitable c') (commit_read k b ctx c'.name) in
    conclude elapsed c' t answer

-- After the park: an error of the waiting context ends the call.
unfoldable pub open_cancel : Store → OpenCall → Bool → Error → Store × OpenTurn
unfolding open_fail is
open_cancel s c elapsed e = (open_fail s c false 0, failing (park_error elapsed e))

-- `leasedReader.Close`: once.
unfoldable pub close_reader : Store → LeasedReader → Store × LeasedReader
unfolding cleanup_consumed release_handle
close_reader s r = if r.closed then (s, r) else (
  release_handle (if r.cleanup then cleanup_consumed s r.handle r.gen else s) r.handle,
  record r { closed = true },
)
