-- ===== src/Store/Outcomes/Closing.antt =====
-- `writer.Close`: the value is published, or the one before it is left standing.
use buff.Common.{ℕ, ◌≡◌, refl, ◌≢◌, ◌⊎◌, inl, inr, true, false, Option, none, some, arith, if_false}
use buff.Clip.Errors.{Error, closed}
use buff.Buffer.{Backing, sync, finish, fail}
use buff.Store.Generation.{finalized}
use buff.Store.State.{Store, release_handle}
use buff.Store.Medium.{Medium}
use buff.Store.Gate.{transition, transition_result}
use buff.Store.Reclaim.{reclaim}
use buff.Store.Reaper.{reclaim_some}
use buff.Store.Outcomes.{release_current, release_live, release_heap, reclaim_handles}
use buff.Store.Create.{Writer}
use buff.Store.Writer.{
  close, commit_close, fail_close, discard, publish, stamp, after_finalize, finalize_error,
}

-- The writer's generation is the value of its name, with the bytes that were written.
pub record IsPublished (s t : Store) (w : Writer) : Type 0 where
  pub is_current : (t.handles w.handle).current ≡ some w.gen
  pub no_live : (t.handles w.handle).live ≡ none
  pub is_final : (t.heap w.gen).state ≡ finalized
  pub same_bytes : (t.heap w.gen).buf.stored ≡ (s.heap w.gen).buf.stored
  pub is_closed : (t.heap w.gen).buf.closed ≡ true

-- The name has the value that it had, and the followers of the writer's log meet its tear.
pub record IsDiscarded (s t : Store) (w : Writer) : Type 0 where
  pub kept_current : (t.handles w.handle).current ≡ (s.handles w.handle).current
  pub no_live : (t.handles w.handle).live ≡ none
  pub is_torn : (t.heap w.gen).buf.aborted ≡ true
  pub no_home : (t.heap w.gen).home ≡ false
  pub kept_others : (g : ℕ) → g ≢ w.gen → t.heap g ≡ s.heap g

pub discard-IsDiscarded : (b : Backing) (s : Store) (w : Writer) → IsDiscarded s (discard b s w).0 w
unfolding discard transition fail reclaim release_handle
discard-IsDiscarded b s w = record {
  kept_current = ground arith;
  no_live = ground arith;
  is_torn = ground arith;
  no_home = ground arith;
  kept_others = λ g h. ground arith;
}

reclaim_state :
    (s : Store) (prev : Option ℕ) (g : ℕ) → ((reclaim_some s prev).heap g).state ≡ (s.heap g).state
unfolding reclaim
reclaim_state s none g = refl
reclaim_state s (some c) g = ground arith

reclaim_buf :
    (s : Store) (prev : Option ℕ) (g : ℕ) → ((reclaim_some s prev).heap g).buf ≡ (s.heap g).buf
unfolding reclaim
reclaim_buf s none g = refl
reclaim_buf s (some c) g = ground arith

commit_close-IsPublished :
    (b : Backing) (s : Store) (w : Writer) → IsPublished s (commit_close b s w).0 w
unfolding commit_close publish transition_result finish
commit_close-IsPublished b s w = record {
  is_current = rw (release_current, reclaim_handles) (ground arith);
  no_live = rw (release_live, reclaim_handles) (ground arith);
  is_final = rw (release_heap, reclaim_state) (ground arith);
  same_bytes = rw (release_heap, reclaim_buf) (ground arith);
  is_closed = rw (release_heap, reclaim_buf) (ground arith);
}

fail_close-IsDiscarded :
    (b : Backing) (s : Store) (w : Writer) (now : ℕ) (cause : Error)
    → let r = fail_close b (stamp s w.gen now) w cause in
      (r.2 ≡ some (finalize_error (s.heap w.gen).name cause)) × IsDiscarded s r.0 w
unfolding fail_close
fail_close-IsDiscarded b s w now cause =
    let v = discard-IsDiscarded b (stamp s w.gen now) w in
    (
      ground arith,
      record {
        kept_current = v.kept_current;
        no_live = v.no_live;
        is_torn = v.is_torn;
        no_home = v.no_home;
        kept_others = λ g h. ground (arith, v.kept_others g h);
      },
    )

stamp-IsPublished :
    (b : Backing) (s : Store) (w : Writer) (now : ℕ)
    → IsPublished s (commit_close b (stamp s w.gen now) w).0 w
stamp-IsPublished b s w now =
    let v = commit_close-IsPublished b (stamp s w.gen now) w in
    record {
      is_current = v.is_current;
      no_live = v.no_live;
      is_final = v.is_final;
      same_bytes = ground (arith, v.same_bytes);
      is_closed = v.is_closed;
    }

-- The two ends of `Close` after the sync, by what the medium's finalize answered.
after_finalize_outcome :
    (b : Backing) (s : Store) (w : Writer) (now : ℕ) (o : Option Error)
    → let r = after_finalize b (stamp s w.gen now) w o in
      ((o ≡ none) × (r.2 ≡ none) × IsPublished s r.0 w)
      ⊎ ((e : Error) × (o ≡ some e)
          × (r.2 ≡ some (finalize_error (s.heap w.gen).name e))
          × IsDiscarded s r.0 w)
unfolding commit_close
after_finalize_outcome b s w now none = inl (refl, refl, stamp-IsPublished b s w now)
after_finalize_outcome b s w now (some e) =
    let (q, p) = fail_close-IsDiscarded b s w now e in inr (e, refl, q, p)

-- The first fault of the sync and of the medium's finalize, which follows a good sync.
abbrev pub Fails : Option Error → Option Error → Error → Type 0
Fails sync_fault finalize_fault e =
    (sync_fault ≡ some e) ⊎ ((sync_fault ≡ none) × (finalize_fault ≡ some e))

after_sync_outcome :
    (k : Medium) (b : Backing) (s : Store) (w : Writer) (now : ℕ) (o : Option Error)
    → let t = stamp s w.gen now in
      let r : Store × Writer × Option Error = elim o [
        | some e ↦ fail_close b t w e
        | none ↦ after_finalize b t w (k.finalize (t.heap w.gen)).1
      ] in
      ((o ≡ none) × ((k.finalize (t.heap w.gen)).1 ≡ none) × (r.2 ≡ none) × IsPublished s r.0 w)
      ⊎ ((e : Error) × Fails o (k.finalize (t.heap w.gen)).1 e
          × (r.2 ≡ some (finalize_error (s.heap w.gen).name e))
          × IsDiscarded s r.0 w)
after_sync_outcome k b s w now (some e) =
    let (q, p) = fail_close-IsDiscarded b s w now e in inr (e, inl refl, q, p)
after_sync_outcome k b s w now none =
    elim (after_finalize_outcome b s w now (k.finalize ((stamp s w.gen now).heap w.gen)).1) [
      | inl (q, n, p) ↦ inl (refl, q, n, p)
      | inr (e, q, x, p) ↦ inr (e, inr (refl, q), x, p)
    ]

-- `Close` of a writer that is not done publishes exactly if the bytes are synced and the medium
-- finalizes the generation. Then it returns no error, and the generation is the current value of the
-- name, finalized and closed, with the bytes as they were written. Else the sync faulted, or it was
-- good and the finalize faulted; `Close` returns that fault, wrapped with the name, the name keeps
-- the value it had, no other generation is touched, and the writer's log is torn.
pub close_outcome :
    (k : Medium) (b : Backing) (s : Store) (w : Writer) (now : ℕ)
    → w.done ≡ false
    → let t = stamp s w.gen now in
      let r = close k b s w now in
      ((sync b (t.heap w.gen).buf ≡ none)
        × ((k.finalize (t.heap w.gen)).1 ≡ none)
        × (r.2 ≡ none)
        × IsPublished s r.0 w)
      ⊎ ((e : Error) × Fails (sync b (t.heap w.gen).buf) (k.finalize (t.heap w.gen)).1 e
          × (r.2 ≡ some (finalize_error (s.heap w.gen).name e))
          × IsDiscarded s r.0 w)
unfolding close
close_outcome k b s w now d =
    let e =
      if_false w.done (s, w, some closed)
        (elim (sync b ((stamp s w.gen now).heap w.gen).buf) [
          | some e ↦ fail_close b (stamp s w.gen now) w e
          | none ↦
              after_finalize b (stamp s w.gen now) w (k.finalize ((stamp s w.gen now).heap w.gen)).1
        ])
        d in
    rw e (after_sync_outcome k b s w now _)
