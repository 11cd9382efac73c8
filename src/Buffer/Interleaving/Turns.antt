-- ===== src/Buffer/Interleaving/Turns.antt =====
-- One turn of the follower's `Read`, on a look at the log that may be old.
use Prim.Native.Nat.{min}
use buff.Common.{
  ℕ, ◌-◌, ◌≤◌, ◌<◌, ◌≡◌, refl, Bool, true, false, Option, some, [], arith, length, length-take,
  length-drop, take, drop, ltb, if◌then◌else◌, take-append-take-drop, lt→ltb, Bool-cases, inl, inr,
}
use native.Mathlib.Nat.{add-zero}
use mathlib.Core.List.{append-nil}
use buff.Clip.Errors.{Error, aborted, eof}
use buff.Buffer.{read_at}
use buff.Buffer.Log.{read_region_lem}
use buff.Buffer.Follower.{Snapshot, returns, waits, act}
use buff.Buffer.Interleaving.{Live, after, Fresh, Waiting, Ended, Inv}

-- A turn that reads moves the offset over the bytes it returns.
reads-Inv :
    (s : Live) (seen : Snapshot) (room : ℕ)
    → s.off < seen.size
    → Fresh seen s.buffer
    → Inv s
    → Inv (after s (act (read_at s.buffer.stored) seen s.off room))
unfolding act after
reads-Inv s seen room h fresh v =
    let n = min room (seen.size - s.off) in
    let got = drop s.off s.buffer.stored in
    let e =
      read_region_lem s.buffer.stored room s.off seen.size h (omega (arith, v.log, fresh.0))
        v.fits in
    let l : length (take n got) ≡ n =
      omega (arith, v.log, fresh.0, length-take n got, length-drop s.off s.buffer.stored) in
    rw (lt→ltb _ _ h, act, e)
      (record {
        log = v.log;
        fits = v.fits;
        within = omega (arith, l, fresh.0);
        output = rw (l, v.output) (take-append-take-drop s.off n s.buffer.stored);
        in_phase = tt;
        ended = (λ q. cc, λ q. cc);
      })

-- A turn that returns no byte.
pub returns-Inv :
    (s : Live) (err : Option Error)
    → Ended err s.off s.buffer
    → Inv s
    → Inv (after s (returns [] err))
unfolding after
returns-Inv s err ended v = record {
  log = v.log;
  fits = v.fits;
  within = omega (arith, v.within);
  output = rw (append-nil s.output, add-zero s.off) v.output;
  in_phase = tt;
  ended = rw (add-zero s.off) ended;
}

waits-Inv : (s : Live) (n : ℕ) → Waiting n s.off s.buffer → Inv s → Inv (after s (waits n))
unfolding after
waits-Inv s n w v = record {
  log = v.log;
  fits = v.fits;
  within = v.within;
  output = v.output;
  in_phase = w;
  ended = v.ended;
}

-- A turn that finds the log read to its end.
caught_up-Inv :
    (s : Live) (seen : Snapshot) (a c : Bool)
    → seen.aborted ≡ a
    → seen.closed ≡ c
    → seen.size ≤ s.off
    → Fresh seen s.buffer
    → Inv s
    → Inv (
        after s (
          if a
          then returns [] (some aborted)
          else if c
          then returns [] (some eof)
          else waits seen.notify))
caught_up-Inv s seen true c ea ec h fresh v =
    returns-Inv s (some aborted) (λ q. cc, λ q. fresh.4 ea) v
caught_up-Inv s seen false true ea ec h fresh v =
    returns-Inv s (some eof)
      (λ q. ((fresh.3 ec).0, omega (arith, (fresh.3 ec).1, v.within)), λ q. cc) v
caught_up-Inv s seen false false ea ec h fresh v =
    waits-Inv s seen.notify (fresh.1, λ q. ground (arith, fresh.2 q, v.within)) v

stops-Inv :
    (s : Live) (seen : Snapshot) (room : ℕ)
    → ltb s.off seen.size ≡ false
    → Fresh seen s.buffer
    → Inv s
    → Inv (after s (act (read_at s.buffer.stored) seen s.off room))
unfolding act
stops-Inv s seen room e fresh v =
    rw (e, act) (caught_up-Inv s seen seen.aborted seen.closed refl refl (ground arith) fresh v)

pub acts-Inv :
    (s : Live) (seen : Snapshot) (room : ℕ)
    → Fresh seen s.buffer
    → Inv s
    → Inv (after s (act (read_at s.buffer.stored) seen s.off room))
unfolding act after
acts-Inv s seen room fresh v = elim (Bool-cases (ltb s.off seen.size)) [
  | inl e ↦ reads-Inv s seen room (ground arith) fresh v
  | inr e ↦ stops-Inv s seen room e fresh v
]
