-- ===== src/Store/Invariant/Closing.antt =====
-- The terminals of a writer, `Close` and `Abort`, keep the invariant.
use buff.Common.{
  ℕ, ◌≡◌, refl, true, false, Option, none, some, arith, Option-cases, Bool-cases, inl, inr,
}
use buff.Clip.Errors.{Error}
use buff.Buffer.{Backing, Buffer, finish, fail, sync}
use buff.Store.Generation.{finalized, is_consumed}
use buff.Store.State.{Store, put_handle, put_gen, release_handle}
use buff.Store.Medium.{Medium}
use buff.Store.Gate.{transition, transition_result, wake_if}
use buff.Store.Reclaim.{reclaim}
use buff.Store.Create.{Writer}
use buff.Store.Writer.{
  set_buf, stamp, superseded, discard, fail_close, publish, commit_close, after_finalize, close,
  abort,
}
use buff.Store.Accounting.{total-update, held_bytes, held_clips}
use buff.Store.Invariant.{
  Inv, Drops, Drops-Inv, IsLoose, Drops-IsLoose, AreLoose, Drops-AreLoose, reclaim-Inv,
  reclaim_some-Inv,
}
use buff.Store.Invariant.Registry.{release_handle-Drops, wake_if-Drops}
use buff.Store.Invariant.Writing.{Owns, put_gen-Inv, put_gen-AreLoose}

drop_live-Drops :
    (s : Store) (h : ℕ) → Drops s (put_handle s h (record (s.handles h) { live = none }))
drop_live-Drops s h = record {
  same_heap = refl;
  same_next = refl;
  same_bytes = refl;
  same_clips = refl;
  current_kept = λ j g e. ground arith;
  live_kept = λ j g e. ground arith;
}

drop_live-IsLoose :
    (s : Store) (h g : ℕ)
    → (s.handles h).live ≡ some g
    → Inv s
    → IsLoose (put_handle s h (record (s.handles h) { live = none })) g
drop_live-IsLoose s h g e v = record {
  allocated = (v.live_gen h g e).0;
  homed = (v.live_gen h g e).2;
  no_current = λ j c. ground (arith, v.live_gen h g e);
  no_live = λ j c. ground (arith, v.live_once h j g e);
}

fail-size : (k : Backing) (b : Buffer) → (fail k b).0.size ≡ b.size
unfolding fail
fail-size k b = refl

finish-size : (k : Backing) (b : Buffer) → (finish k b).0.size ≡ b.size
unfolding finish
finish-size k b = refl

-- A loose generation whose log is ended, off the lock, and then reclaimed.
end_reclaim-Inv :
    (s : Store) (g h : ℕ) (b : Buffer)
    → b.size ≡ (s.heap g).buf.size
    → IsLoose s g
    → Inv s
    → Inv (release_handle (reclaim (set_buf s g b) g) h)
end_reclaim-Inv s g h b sz l v =
    let c = record (s.heap g) { buf = b } in
    Drops-Inv (release_handle-Drops _ h) (
      reclaim-Inv (set_buf s g b) g (put_gen-AreLoose s g c (some g) refl refl l)
        (put_gen-Inv s g c l.allocated refl refl sz v))

pub discard-Inv : (b : Backing) (s : Store) (w : Writer) → Owns s w → Inv s → Inv (discard b s w).0
unfolding discard transition
discard-Inv b s w o v =
    let d = drop_live-Drops s w.handle in
    let t = put_handle s w.handle (record (s.handles w.handle) { live = none }) in
    let wake = wake_if-Drops true t w.handle in
    let u = wake_if true t w.handle in
    end_reclaim-Inv u w.gen w.handle (fail b (u.heap w.gen).buf).0 (fail-size b (u.heap w.gen).buf)
      (Drops-IsLoose wake w.gen (drop_live-IsLoose s w.handle w.gen o.pointed v))
      (Drops-Inv wake (Drops-Inv d v))

pub stamp-Inv : (s : Store) (w : Writer) (now : ℕ) → Owns s w → Inv s → Inv (stamp s w.gen now)
stamp-Inv s w now o v =
    put_gen-Inv s w.gen _ (v.live_gen w.handle w.gen o.pointed).0 refl refl refl v

-- The publication makes the live generation the value of its name.
publish-Inv : (s : Store) (w : Writer) → Owns s w → Inv s → Inv (publish w s).0
unfolding publish
publish-Inv s w o v =
    let (l, st, hm) = v.live_gen w.handle w.gen o.pointed in
    let c = record (s.heap w.gen) { state = finalized } in
    record {
      current_gen = λ h g e. ground (arith, v.current_gen h g);
      live_gen = λ h g e. ground (arith, v.live_gen h g, v.live_once h w.handle g);
      current_once =
          λ h j g e f. ground (arith, v.current_once h j g, v.current_gen h g, v.current_gen j g);
      live_once = λ h j g e f. ground (arith, v.live_once h j g);
      bytes_held =
          ground (arith, v.bytes_held, total-update held_bytes s.heap s.next_gen w.gen c l);
      clips_held =
          ground (arith, v.clips_held, total-update held_clips s.heap s.next_gen w.gen c l);
    }

superseded-IsLoose :
    (s : Store) (w : Writer) (p : Option ℕ)
    → (s.handles w.handle).current ≡ p
    → Owns s w
    → Inv s
    → AreLoose (publish w s).0 (superseded s p)
unfolding publish
superseded-IsLoose s w none e o v = tt
superseded-IsLoose s w (some c) e o v = elim (Bool-cases (is_consumed (s.heap c).state)) [
  | inl q ↦ rw q tt
  | inr q ↦
      let (a, nl, hm) = v.current_gen w.handle c e in
      let (_, st, _) = v.live_gen w.handle w.gen o.pointed in
      rw q (record {
        allocated = a;
        homed = ground arith;
        no_current = λ j f. ground (arith, v.current_once w.handle j c e);
        no_live = λ j f. ground (arith, v.live_gen j c);
      })
]

commit_close-Inv :
    (b : Backing) (s : Store) (w : Writer) → Owns s w → Inv s → Inv (commit_close b s w).0
unfolding commit_close transition_result publish
commit_close-Inv b s w o v =
    let t = (publish w s).0 in
    let prev = superseded s (s.handles w.handle).current in
    let u = wake_if true t w.handle in
    let d = wake_if-Drops true t w.handle in
    let vu = Drops-Inv d (publish-Inv s w o v) in
    let lu = Drops-AreLoose prev d (superseded-IsLoose s w _ refl o v) in
    let c = record (u.heap w.gen) { buf = (finish b (u.heap w.gen).buf).0 } in
    let (l, _, _) = v.live_gen w.handle w.gen o.pointed in
    Drops-Inv (release_handle-Drops _ w.handle) (
      reclaim_some-Inv (put_gen u w.gen c) prev (put_gen-AreLoose u w.gen c prev refl refl lu)
        (put_gen-Inv u w.gen c l refl refl (finish-size b (u.heap w.gen).buf) vu))

fail_close-Inv :
    (b : Backing) (s : Store) (w : Writer) (e : Error)
    → Owns s w
    → Inv s
    → Inv (fail_close b s w e).0
unfolding fail_close
fail_close-Inv b s w e o v = discard-Inv b s w o v

after_finalize-Inv :
    (b : Backing) (s : Store) (w : Writer) (r : Option Error)
    → Owns s w
    → Inv s
    → Inv (after_finalize b s w r).0
after_finalize-Inv b s w none o v = commit_close-Inv b s w o v
after_finalize-Inv b s w (some e) o v = fail_close-Inv b s w e o v

stamp-Owns : (s : Store) (w : Writer) (now : ℕ) → Owns s w → Owns (stamp s w.gen now) w
stamp-Owns s w now o = record { known = o.known; pointed = o.pointed }

pub close-Inv :
    (k : Medium) (b : Backing) (s : Store) (w : Writer) (now : ℕ)
    → (w.done ≡ false → Owns s w)
    → Inv s
    → Inv (close k b s w now).0
unfolding close
close-Inv k b s w now own v = elim (Bool-cases w.done) [
  | inl d ↦ rw (d, close) v
  | inr d ↦
      let t = stamp s w.gen now in
      let o = stamp-Owns s w now (own d) in
      let vt = stamp-Inv s w now (own d) v in
      elim (Option-cases (sync b (t.heap w.gen).buf)) [
        | inr (e, f) ↦ rw (d, close) (rw f (fail_close-Inv b t w e o vt))
        | inl f ↦ rw (d, close) (rw f (after_finalize-Inv b t w _ o vt))
      ]
]

pub abort-Inv :
    (b : Backing) (s : Store) (w : Writer)
    → (w.done ≡ false → Owns s w)
    → Inv s
    → Inv (abort b s w).0
unfolding abort
abort-Inv b s w own v = elim (Bool-cases w.done) [
  | inl d ↦ rw (d, abort) v
  | inr d ↦ rw (d, abort) (discard-Inv b s w (own d) v)
]
