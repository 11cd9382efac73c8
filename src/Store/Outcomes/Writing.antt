-- ===== src/Store/Outcomes/Writing.antt =====
-- `writer.Write`: exactly the bytes it reports are appended to the writer's log.
use buff.Common.{
  ℕ, ◌≤◌, ◌≡◌, refl, sym, ap, not, Option, ◌++◌, arith, Bool-cases, if_elim, subst, inl, inr, Bytes,
  length, take,
}
use mathlib.Core.List.{append-nil}
use buff.Clip.Errors.{Error}
use buff.Buffer.{Backing, Buffer, append, terminated}
use buff.Buffer.Log.{Honest}
use buff.Store.Quota.{reserve, per_clip_ok}
use buff.Store.Generation.{Generation, live}
use buff.Store.State.{Store}
use buff.Store.Medium.{Medium}
use buff.Store.Create.{Writer}
use buff.Store.Writer.{write, reserve_chunk, append_chunk}
use buff.Store.Spares.Sweep.{reclaim_expired-Spares}

-- A log before and after, of which `n` bytes of a chunk were appended.
pub record Appends (b c : Buffer) (p : Bytes) (n : ℕ) : Type 0 where
  pub at_most : n ≤ length p
  pub stored : c.stored ≡ b.stored ++ take n p

nothing-Appends : (b : Buffer) (p : Bytes) → Appends b b p 0
unfolding take
nothing-Appends b p = record { at_most = omega arith; stored = sym (append-nil b.stored) }

append-Appends :
    (k : Backing) (b : Buffer) (p : Bytes) → Honest k → let r = append k b p in Appends b r.0 p r.1
unfolding append
append-Appends k b p h = elim (Bool-cases (terminated b)) [
  | inl e ↦ rw (e, append) (nothing-Appends b p)
  | inr e ↦ rw (e, append) (record { at_most = h p; stored = ground arith })
]

append_chunk-Appends :
    (k : Backing) (s : Store) (w : Writer) (p : Bytes)
    → Honest k
    → let r = append_chunk k s w p in Appends (s.heap w.gen).buf (r.0.heap w.gen).buf p r.2
unfolding append_chunk
append_chunk-Appends k s w p h =
    let a = append-Appends k (s.heap w.gen).buf p h in
    record { at_most = a.at_most; stored = ground (arith, a.stored) }

pub reserve_chunk-kept :
    (k : Medium) (s : Store) (n now g : ℕ)
    → (s.heap g).state ≡ live
    → ((reserve_chunk k s n now).0.heap g) ≡ s.heap g
unfolding reserve_chunk
reserve_chunk-kept k s n now g l = elim (Bool-cases (reserve s.quota n).1) [
  | inl e ↦ rw (e, reserve_chunk) refl
  | inr e ↦ rw (e, reserve_chunk) ((reclaim_expired-Spares k s now).gen_same g l)
]

-- Whatever `Write` answers for a writer whose generation is live, on a backing that reports no more
-- bytes than it was given: the log of the writer is the old log followed by as many bytes of the
-- chunk, from its start, as `Write` reports, through every refusal and every short append.
pub write-Appends :
    (k : Medium) (b : Backing) (s : Store) (w : Writer) (p : Bytes) (now : ℕ)
    → Honest b
    → (s.heap w.gen).state ≡ live
    → let r = write k b s w p now in Appends (s.heap w.gen).buf (r.0.heap w.gen).buf p r.2
unfolding write
write-Appends k b s w p now h l =
    let old = (s.heap w.gen).buf in
    let t = (reserve_chunk k s (length p) now).0 in
    let same : (t.heap w.gen).buf ≡ old =
      ap (λ (g : Generation). g.buf) (reserve_chunk-kept k s (length p) now w.gen l) in
    let P = λ (r : Store × Writer × ℕ × Option Error). Appends old (r.0.heap w.gen).buf p r.2 in
    if_elim P w.done _ _ (λ d. nothing-Appends old p)
      λ d.
        if_elim P (not (per_clip_ok s.quota w.written (length p))) _ _ (λ c. nothing-Appends old p)
          λ c.
            if_elim P (reserve_chunk k s (length p) now).1 _ _
              (λ g.
                subst
                  (λ q.
                    Appends q ((append_chunk b t w p).0.heap w.gen).buf p (append_chunk b t w p).2)
                  same (append_chunk-Appends b t w p h))
              (λ g. subst (λ q. Appends old q p 0) (sym same) (nothing-Appends old p))
