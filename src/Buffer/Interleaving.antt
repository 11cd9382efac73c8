-- ===== src/Buffer/Interleaving.antt =====
-- A follower and the writer of its log, in any interleaving. Each step is one critical section of
-- the buffer's lock, or what the follower does between two of them.
pub mod Growth
pub mod Turns
pub mod Following
use Prim.Native.Nat.{min}
use buff.Common.{
  ℕ, ◌+◌, ◌-◌, ◌≤◌, ◌<◌, ◌≡◌, refl, Bool, true, false, Option, none, some, List, [], ◌++◌, arith,
  Bytes, length, length-append, length-take, length-drop, take, drop, int64_end, ltb, if◌then◌else◌,
  take-append-take-drop, lt→ltb, Bool-cases, inl, inr, subst, take-append_le, take-length, ◌∙◌, sym,
  ap,
}
use native.Mathlib.Nat.{add-zero}
use mathlib.Core.List.{append-nil}
use buff.Clip.Errors.{Error, aborted, eof, canceled}
use buff.Buffer.{
  Backing, Buffer, append, finish, fail, read_at, read_region, terminated, new_buffer,
}
use buff.Buffer.Log.{IsLog, Honest, append-IsLog, read_region_lem}
use buff.Buffer.Follower.{Snapshot, look, Turn, returns, waits, act}

pub data Phase : Type 0 where
  idle : Phase
  looked : Snapshot → Phase
  parked : ℕ → Phase

-- `output` is all that `Read` has returned, and `ended` the error it returned last.
pub record Live : Type 0 where
  pub buffer : Buffer
  pub off : ℕ
  pub phase : Phase
  pub output : Bytes
  pub ended : Option Error

unfoldable pub after : Live → Turn → Live
after s (returns got err) = record s {
  off = s.off + length got;
  phase = idle;
  output = s.output ++ got;
  ended = err;
}
after s (waits notify) = record s { phase = parked notify }

pub data Move (s t : Live) : Type 0 where
  writes :
      (k : Backing) (p : Bytes)
      → Honest k
      → length (append k s.buffer p).0.stored < int64_end
      → t ≡ record s { buffer = (append k s.buffer p).0 }
      → Move s t
  finishes : (k : Backing) → t ≡ record s { buffer = (finish k s.buffer).0 } → Move s t
  fails : (k : Backing) → t ≡ record s { buffer = (fail k s.buffer).0 } → Move s t
  looks : s.phase ≡ idle → t ≡ record s { phase = looked (look s.buffer) } → Move s t
  acts :
      (seen : Snapshot) (room : ℕ)
      → s.phase ≡ looked seen
      → 0 < room
      → t ≡ after s (act (read_at s.buffer.stored) seen s.off room)
      → Move s t
  wakes :
      (n : ℕ) → s.phase ≡ parked n → n < s.buffer.notify → t ≡ record s { phase = idle } → Move s t
  empties : s.phase ≡ idle → t ≡ after s (returns [] none) → Move s t
  detaches : t ≡ record s { phase = idle; ended = some canceled } → Move s t

pub data Reach (s : Live) : Live → Type 0 where
  here : Reach s s
  next : {t u : Live} → Reach s t → Move t u → Reach s u

-- What a look at the log still tells: the log only grows, and only by a new channel.
abbrev pub Fresh : Snapshot → Buffer → Type 0
Fresh seen b =
    (seen.size ≤ b.size)
    × (seen.notify ≤ b.notify)
    × (seen.notify ≡ b.notify
        → (seen.size ≡ b.size) × (seen.closed ≡ b.closed) × (seen.aborted ≡ b.aborted))
    × (seen.closed ≡ true → (b.closed ≡ true) × (seen.size ≡ b.size))
    × (seen.aborted ≡ true → b.aborted ≡ true)

abbrev pub Waiting : ℕ → ℕ → Buffer → Type 0
Waiting n off b =
    (n ≤ b.notify) × (n ≡ b.notify → (off ≡ b.size) × (b.closed ≡ false) × (b.aborted ≡ false))

abbrev pub InPhase : Phase → ℕ → Buffer → Type 0
InPhase idle off b = Unit {0}
InPhase (looked seen) off b = Fresh seen b
InPhase (parked n) off b = Waiting n off b

abbrev pub Ended : Option Error → ℕ → Buffer → Type 0
Ended e off b =
    (e ≡ some eof → (b.closed ≡ true) × (off ≡ b.size)) × (e ≡ some aborted → b.aborted ≡ true)

pub record Inv (s : Live) : Type 0 where
  pub log : s.buffer.size ≡ length s.buffer.stored
  pub fits : length s.buffer.stored < int64_end
  pub within : s.off ≤ s.buffer.size
  pub output : s.output ≡ take s.off s.buffer.stored
  pub in_phase : InPhase s.phase s.off s.buffer
  pub ended : Ended s.ended s.off s.buffer

-- A new log, and a reader of it at the start that has read nothing.
abbrev pub start : Live
start = record { buffer = new_buffer; off = 0; phase = idle; output = []; ended = none }
