-- ===== src/Api/Upload/Ended.antt =====
-- The end of the PUT handler: `Close` and its deferred abort, or the abort alone.
use buff.Common.{
  ℕ, ◌≤◌, ◌≡◌, refl, true, false, Bool, Option-cases, Option, none, some, arith, if_false, if_elim,
  ◌⊎◌, inl, inr, List, [], ◌∷◌,
}
use buff.Clip.Errors.{Error, is}
use buff.Buffer.{Backing, sync}
use buff.Store.Generation.{finalized}
use buff.Store.State.{Store}
use buff.Store.Medium.{Medium}
use buff.Store.Create.{Writer}
use buff.Store.Writer.{close, abort, discard, stamp, commit_close, fail_close, after_finalize}
use buff.Store.Outcomes.Closing.{close_outcome, discard-IsDiscarded, IsDiscarded}
use buff.Wire.{ErrInfo}
use buff.Wire.Headers.{Header, Codec}
use buff.Wire.Responses.{Clock}
use buff.Api.Errors.{map_err, first_row, err_map}
use buff.Api.Upload.{
  PutRequest, CopyEnd, clean, read_failed, write_failed, short_write, classify_put, Reply, refused,
  stored, copied,
}
use buff.Api.Upload.Copied.{body_bytes}

-- The value of the name is the whole body.
pub record IsStored (t : Store) (q : PutRequest) (h g : ℕ) : Type 0 where
  pub all_read : q.ending ≡ none
  pub is_current : (t.handles h).current ≡ some g
  pub no_live : (t.handles h).live ≡ none
  pub is_final : (t.heap g).state ≡ finalized
  pub all_bytes : (t.heap g).buf.stored ≡ body_bytes q.chunks
  pub is_closed : (t.heap g).buf.closed ≡ true

-- The name has no writer, and the log of the upload is torn and gives up its bytes.
pub record IsTorn (t : Store) (h g : ℕ) : Type 0 where
  pub no_live : (t.handles h).live ≡ none
  pub is_torn : (t.heap g).buf.aborted ≡ true
  pub no_home : (t.heap g).home ≡ false

abbrev pub Ended : Store × Reply → PutRequest → ℕ → ℕ → Type 0
Ended r q h g =
    ((header : Header) × (r.1 ≡ stored header) × IsStored r.0 q h g)
    ⊎ ((info : ErrInfo) × (r.1 ≡ refused info) × (400 ≤ info.status) × IsTorn r.0 h g)

abbrev AllFail : List (Error × ErrInfo) → Type 0
AllFail [] = Unit {0}
AllFail ((t, info) ∷ rest) = (400 ≤ info.status) × AllFail rest

first_row_fails :
    (e : Error) (rows : List (Error × ErrInfo)) → AllFail rows → 400 ≤ (first_row e rows).status
unfolding first_row
first_row_fails e [] v = omega arith
first_row_fails e ((t, info) ∷ rest) (l, v) =
    if_elim (λ (i : ErrInfo). 400 ≤ i.status) (is e t) _ _ (λ p. l) (λ p. first_row_fails e rest v)

all_fail : AllFail err_map
all_fail = ground arith

pub map_err_fails : (e : Error) → 400 ≤ (map_err e).status
unfolding map_err
map_err_fails e = first_row_fails e err_map all_fail

classify_put_fails : (stopping : Bool) (end : CopyEnd) → 400 ≤ (classify_put stopping end).status
unfolding classify_put
classify_put_fails stopping clean = omega arith
classify_put_fails true (read_failed e) = omega arith
classify_put_fails false (read_failed e) = omega arith
classify_put_fails stopping (write_failed e) = map_err_fails e
classify_put_fails stopping short_write = omega arith

discarded-IsTorn : (s t : Store) (w : Writer) → IsDiscarded s t w → IsTorn t w.handle w.gen
discarded-IsTorn s t w v = record { no_live = v.no_live; is_torn = v.is_torn; no_home = v.no_home }

abort-IsTorn :
    (b : Backing) (s : Store) (w : Writer) → w.done ≡ false → IsTorn (abort b s w).0 w.handle w.gen
unfolding abort
abort-IsTorn b s w d =
    rw (if_false w.done (s, w) (discard b s w) d)
      (discarded-IsTorn s _ w (discard-IsDiscarded b s w))

abort_done : (b : Backing) (s : Store) (w : Writer) → w.done ≡ true → abort b s w ≡ (s, w)
unfolding abort
abort_done b s w d = if_elim (λ r. r ≡ (s, w)) w.done (s, w) (discard b s w) (λ e. refl) (λ e. cc)

after_finalize_done :
    (b : Backing) (s : Store) (w : Writer) (o : Option Error)
    → (after_finalize b s w o).1.done ≡ true
unfolding commit_close fail_close discard
after_finalize_done b s w none = refl
after_finalize_done b s w (some e) = refl

close_done :
    (k : Medium) (b : Backing) (s : Store) (w : Writer) (now : ℕ)
    → (close k b s w now).1.done ≡ true
unfolding close fail_close discard
close_done k b s w now =
    let t = stamp s w.gen now in
    if_elim (λ (r : Store × Writer × Option Error). r.1.done ≡ true) w.done _ _ (λ d. d)
      λ d. elim (Option-cases (sync b (t.heap w.gen).buf)) [
        | inr (e, f) ↦ rw (f, close) refl
        | inl f ↦ rw (f, close) (after_finalize_done b t w (k.finalize (t.heap w.gen)).1)
      ]

-- What `Close` leaves of the upload, the deferred abort included.
closed-Ended :
    (k : Medium) (b : Backing) (codec : Codec) (clock : Clock) (q : PutRequest) (s : Store)
    (w : Writer)
    → w.done ≡ false
    → q.ending ≡ none
    → (s.heap w.gen).buf.stored ≡ body_bytes q.chunks
    → Ended (copied k b codec clock q s w clean) q w.handle w.gen
closed-Ended k b codec clock q s w d all bytes =
    let r = close k b s w q.close_now in
    elim (close_outcome k b s w q.close_now d) [
      | inl (y, f, e, p) ↦ inl (
          rw e (
            _,
            refl,
            record {
              all_read = all;
              is_current = p.is_current;
              no_live = p.no_live;
              is_final = p.is_final;
              all_bytes = rw p.same_bytes bytes;
              is_closed = p.is_closed;
            },
          ))
      | inr (x, y, e, v) ↦ inr (
          rw e (
            _,
            refl,
            omega arith,
            rw (abort_done b r.0 r.1 (close_done k b s w q.close_now)) (discarded-IsTorn s r.0 w v),
          ))
    ]

pub copied-Ended :
    (k : Medium) (b : Backing) (codec : Codec) (clock : Clock) (q : PutRequest) (s : Store)
    (w : Writer) (end : CopyEnd)
    → w.done ≡ false
    → (end ≡ clean → (q.ending ≡ none) × ((s.heap w.gen).buf.stored ≡ body_bytes q.chunks))
    → Ended (copied k b codec clock q s w end) q w.handle w.gen
unfolding classify_put
copied-Ended k b codec clock q s w clean d v =
    closed-Ended k b codec clock q s w d (v refl).0 (v refl).1
copied-Ended k b codec clock q s w (read_failed e) d v =
    inr (_, refl, classify_put_fails q.stopping (read_failed e), abort-IsTorn b s w d)
copied-Ended k b codec clock q s w (write_failed e) d v =
    inr (_, refl, classify_put_fails q.stopping (write_failed e), abort-IsTorn b s w d)
copied-Ended k b codec clock q s w short_write d v =
    inr (_, refl, classify_put_fails q.stopping short_write, abort-IsTorn b s w d)
