-- ===== src/Buffer/Follower.antt =====
-- store/internal/buffer/follower.go: one turn of the loop of `Read` on a live log. The state is
-- looked at under the lock, and acted on after it is released.
use buff.Common.{ℕ, Bool, Option, none, some, [], Bytes, ltb, if◌then◌else◌, slt64, ◌⊎◌, inl, inr}
use buff.Clip.Errors.{Error, aborted, eof, negative_offset}
use buff.Buffer.{Backing, Buffer, ReadHandle, read_region}

-- What the follower reads under the lock.
pub record Snapshot : Type 0 where
  pub size : ℕ
  pub closed : Bool
  pub aborted : Bool
  pub notify : ℕ

unfoldable pub look : Buffer → Snapshot
look b = record { size = b.size; closed = b.closed; aborted = b.aborted; notify = b.notify }

-- `Buffer.Reader` at an int64 offset: the offset that the follower starts from.
unfoldable pub open_reader : Backing → ℕ → ℕ ⊎ Error
open_reader k off =
    if slt64 off 0
    then inr negative_offset
    else (elim k.open_result [ none ↦ inl off | some e ↦ inr e ])

-- A turn returns bytes and an error, or waits on the channel of the snapshot.
pub data Turn : Type 0 where
  returns : Bytes → Option Error → Turn
  waits : ℕ → Turn

unfoldable pub act : ReadHandle → Snapshot → ℕ → ℕ → Turn
act h s off room =
    if ltb off s.size
    then (let (got, err) = read_region h room off s.size in returns got err)
    else if s.aborted
    then returns [] (some aborted)
    else if s.closed
    then returns [] (some eof)
    else waits s.notify
