-- ===== src/Tests/Log.antt =====
-- The byte log: a follower that meets a write and the end of the log; a section read in two parts.
use buff.Common.{◌+◌, ◌≡◌, refl, true, false, some, [], ◌∷◌, Bytes, arith, take, drop}
use Prim.Native.Nat.{min}
use buff.Clip.Errors.{eof}
use buff.Buffer.{Buffer, memory_backing, new_buffer, append, finish, read_at, read_region, Section}
use buff.Buffer.Log.{Honest, read_each, read_each_lem}
use buff.Buffer.Follower.{look, act, Snapshot}
use buff.Buffer.Interleaving.{
  Live, idle, parked, writes, finishes, looks, acts, wakes, Reach, here, next, after, start,
}
use buff.Buffer.Interleaving.Following.{follow_prefix, follow_complete, parked_caught_up}

abbrev greeting : Bytes
greeting = b'h' ∷ b'i' ∷ []

memory-Honest : Honest memory_backing
memory-Honest p = omega arith

-- The reader looks at the empty log and parks.
abbrev waiting : Live
waiting = record start { phase = parked 0 }

to_waiting : Reach start waiting
unfolding new_buffer act after look
to_waiting = next (next here (looks refl refl)) (
    acts (record { size = 0; closed = false; aborted = false; notify = 0 }) 8 refl (omega arith)
      refl)

parked_caught_up_example :
    (waiting.off ≡ waiting.buffer.size)
    × (waiting.buffer.closed ≡ false)
    × (waiting.buffer.aborted ≡ false)
parked_caught_up_example = parked_caught_up to_waiting (unfold new_buffer in refl)

-- Then the greeting is written and the log finished, and the reader reads it to the end.
abbrev written : Buffer
written = record { size = 2; closed = true; aborted = false; notify = 2; stored = greeting }

abbrev drained : Live
drained = record { buffer = written; off = 2; phase = idle; output = greeting; ended = some eof }

abbrev at_end : Snapshot
at_end = record { size = 2; closed = true; aborted = false; notify = 2 }

to_drained : Reach start drained
unfolding new_buffer append finish act after look read_region read_at take drop
to_drained =
    next
      (next
        (next
          (next
            (next
              (next
                (next to_waiting (writes memory_backing greeting memory-Honest (omega arith) refl))
                (finishes memory_backing refl))
              (wakes 0 refl (omega arith) refl))
            (looks refl refl))
          (acts at_end 8 refl (omega arith) refl))
        (looks refl refl))
      (acts at_end 8 refl (omega arith) refl)

follow_prefix_example : drained.output ≡ take 2 written.stored
follow_prefix_example = follow_prefix to_drained

follow_complete_example : (written.closed ≡ true) × (drained.output ≡ written.stored)
follow_complete_example = follow_complete to_drained refl

abbrev whole : Section
whole = record { limit = 2; off = 0 }

read_each_lem_example :
    let r = read_each (read_at greeting) whole (1 ∷ 5 ∷ []) in
    (r.1 ≡ take (min 6 2) (drop 0 greeting)) × (r.0.off ≡ 0 + min 6 2)
read_each_lem_example =
    read_each_lem greeting whole (1 ∷ 5 ∷ []) (omega arith) (omega arith) (omega arith)
