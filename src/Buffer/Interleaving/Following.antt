-- ===== src/Buffer/Interleaving/Following.antt =====
-- What a follower has read at the end of any run.
use buff.Common.{none, ◌≡◌, refl, true, false, some, arith, take, subst, take-length, ◌∙◌}
use buff.Clip.Errors.{eof}
use buff.Buffer.{Buffer, append, finish, fail, new_buffer}
use buff.Buffer.Follower.{look}
use buff.Buffer.Interleaving.{
  parked, Live, Move, writes, finishes, fails, looks, acts, wakes, empties, detaches, Reach, here,
  next, Fresh, InPhase, Inv, start,
}
use buff.Buffer.Interleaving.Growth.{append-Grows, finish-Grows, fail-Grows, Grows-Inv}
use buff.Buffer.Interleaving.Turns.{acts-Inv, returns-Inv}

look-Fresh : (b : Buffer) → Fresh (look b) b
unfolding look
look-Fresh b = ground arith

Move-Inv : {s t : Live} → Move s t → Inv s → Inv t
Move-Inv {s} (writes k p h f e) v =
    rw e (Grows-Inv s (append k s.buffer p).0 (append-Grows k s.buffer p h v.log) f v)
Move-Inv {s} (finishes k e) v =
    rw e (Grows-Inv s _ (finish-Grows k s.buffer v.log) (unfold finish in v.fits) v)
Move-Inv {s} (fails k e) v =
    rw e (Grows-Inv s _ (fail-Grows k s.buffer v.log) (unfold fail in v.fits) v)
Move-Inv {s} (looks p e) v = rw e (record {
  log = v.log;
  fits = v.fits;
  within = v.within;
  output = v.output;
  in_phase = look-Fresh s.buffer;
  ended = v.ended;
})
Move-Inv {s} (acts seen room p h e) v =
    rw e (acts-Inv s seen room (subst (λ q. InPhase q s.off s.buffer) p v.in_phase) v)
Move-Inv {s} (wakes n p h e) v = rw e (record {
  log = v.log;
  fits = v.fits;
  within = v.within;
  output = v.output;
  in_phase = tt;
  ended = v.ended;
})
Move-Inv {s} (empties p e) v = rw e (returns-Inv s none (λ q. cc, λ q. cc) v)
Move-Inv {s} (detaches e) v = rw e (record {
  log = v.log;
  fits = v.fits;
  within = v.within;
  output = v.output;
  in_phase = tt;
  ended = ground arith;
})

pub Reach-Inv : {s t : Live} → Inv s → Reach s t → Inv t
Reach-Inv v here = v
Reach-Inv v (next r m) = Move-Inv m (Reach-Inv v r)

start-Inv : Inv start
unfolding new_buffer take
start-Inv = ground arith

-- However the writer and the reader of a new log interleave, on backings that report no more bytes
-- than they were given and while the log stays below 2 ^ 63 bytes, the reader has returned exactly
-- the first bytes stored, in order, up to its offset.
pub follow_prefix : {t : Live} → Reach start t → t.output ≡ take t.off t.buffer.stored
follow_prefix r = (Reach-Inv start-Inv r).output

-- In any interleaving of the writer and a reader of a new log, on backings that report no more
-- bytes than they were given and below 2 ^ 63 bytes, when the last answer of the reader is a clean
-- end, the writer has finished the log, and the reader has returned all of its bytes.
pub follow_complete :
    {t : Live}
    → Reach start t
    → t.ended ≡ some eof
    → (t.buffer.closed ≡ true) × (t.output ≡ t.buffer.stored)
follow_complete {t} r e =
    let v = Reach-Inv start-Inv r in
    ((v.ended.0 e).0, v.output ∙ rw ((v.ended.0 e).1, v.log) (take-length t.buffer.stored))

-- No wakeup is lost, in any interleaving of the writer and a reader of a new log: a reader that
-- waits on the channel that the log still has armed has read every published byte, and the log is
-- neither finished nor failed.
pub parked_caught_up :
    {t : Live}
    → Reach start t
    → t.phase ≡ parked t.buffer.notify
    → (t.off ≡ t.buffer.size) × (t.buffer.closed ≡ false) × (t.buffer.aborted ≡ false)
parked_caught_up {t} r p =
    (subst (λ q. InPhase q t.off t.buffer) p (Reach-Inv start-Inv r).in_phase).1 refl
