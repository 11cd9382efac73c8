-- ===== src/Buffer/Interleaving/Growth.antt =====
-- The writer's operations only grow the log, and what a follower has seen of it stays true.
use buff.Common.{
  ℕ, ◌≤◌, ◌<◌, ◌≡◌, refl, true, arith, Bytes, length, length-append, length-take, take, int64_end,
  take-append_le, ◌∙◌, sym,
}
use buff.Buffer.{Backing, Buffer, append, finish, fail}
use buff.Buffer.Log.{Honest}
use buff.Buffer.Interleaving.{Phase, idle, looked, parked, Live, InPhase, Inv}

-- What every operation of the writer does to the log.
pub record Grows (b c : Buffer) : Type 0 where
  pub size_le : b.size ≤ c.size
  pub notify_le : b.notify ≤ c.notify
  pub quiet :
      c.notify ≡ b.notify → (c.size ≡ b.size) × (c.closed ≡ b.closed) × (c.aborted ≡ b.aborted)
  pub closed_kept : b.closed ≡ true → (c.closed ≡ true) × (c.size ≡ b.size)
  pub aborted_kept : b.aborted ≡ true → c.aborted ≡ true
  pub stored_kept : (n : ℕ) → n ≤ length b.stored → take n c.stored ≡ take n b.stored
  pub logged : c.size ≡ length c.stored

pub append-Grows :
    (k : Backing) (b : Buffer) (p : Bytes)
    → Honest k
    → b.size ≡ length b.stored
    → Grows b (append k b p).0
unfolding append
append-Grows k b p h w =
    let l = length-append b.stored (take (k.append_result p).0 p) in
    let m = length-take (k.append_result p).0 p in
    record {
      size_le = ground arith;
      notify_le = ground arith;
      quiet = λ e. ground arith;
      closed_kept = λ e. ground arith;
      aborted_kept = λ e. ground arith;
      stored_kept = λ n e. ground (arith, take-append_le n b.stored (take (k.append_result p).0 p));
      logged = ground (arith, h p, l, m);
    }

pub finish-Grows : (k : Backing) (b : Buffer) → b.size ≡ length b.stored → Grows b (finish k b).0
unfolding finish
finish-Grows k b w = record {
  size_le = ground arith;
  notify_le = ground arith;
  quiet = λ e. ground arith;
  closed_kept = λ e. ground arith;
  aborted_kept = λ e. ground arith;
  stored_kept = λ n e. refl;
  logged = w;
}

pub fail-Grows : (k : Backing) (b : Buffer) → b.size ≡ length b.stored → Grows b (fail k b).0
unfolding fail
fail-Grows k b w = record {
  size_le = ground arith;
  notify_le = ground arith;
  quiet = λ e. ground arith;
  closed_kept = λ e. ground arith;
  aborted_kept = λ e. ground arith;
  stored_kept = λ n e. refl;
  logged = w;
}

InPhase-Grows :
    (phase : Phase) (off : ℕ) (b c : Buffer) → Grows b c → InPhase phase off b → InPhase phase off c
InPhase-Grows idle off b c g h = tt
InPhase-Grows (looked seen) off b c g h = ground (arith, g.quiet)
InPhase-Grows (parked n) off b c g h = ground (arith, g.quiet)

pub Grows-Inv :
    (s : Live) (c : Buffer)
    → Grows s.buffer c
    → length c.stored < int64_end
    → Inv s
    → Inv (record s { buffer = c })
Grows-Inv s c g f v = record {
  log = g.logged;
  fits = f;
  within = omega (arith, g.size_le, v.within);
  output = v.output ∙ sym (g.stored_kept s.off (omega (arith, v.within, v.log)));
  in_phase = InPhase-Grows s.phase s.off s.buffer c g v.in_phase;
  ended = ground (arith, g.closed_kept, g.aborted_kept, v.ended, g.size_le);
}
