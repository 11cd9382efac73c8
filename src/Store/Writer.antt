-- ===== src/Store/Writer.antt =====
-- store/writer.go: the one writer of a live generation, up to its terminal.
use buff.Common.{
  ℕ, ◌+◌, ◌-◌, Bool, true, not, Option, none, some, ◌++◌, Bytes, codes, length, ltb, if◌then◌else◌,
  add64, slt64,
}
use buff.Clip.Errors.{Error, closed, too_large, no_space, wrap}
use buff.Clip.Meta.{Clip}
use buff.Buffer.{Backing, Buffer, append, sync, finish, fail}
use buff.Store.Quota.{reserve, release, per_clip_ok}
use buff.Store.Generation.{finalized, clip_of}
use buff.Store.State.{Store, put_handle, put_gen, release_handle}
use buff.Store.Medium.{Medium}
use buff.Store.Gate.{transition, transition_result}
use buff.Store.Resolve.{current_consumed}
use buff.Store.Reclaim.{reclaim}
use buff.Store.Reaper.{reclaim_expired, reclaim_some}
use buff.Store.Create.{Writer}

abbrev pub set_buf : Store → ℕ → Buffer → Store
set_buf s g b = put_gen s g (record (s.heap g) { buf = b })

-- The reservation of a chunk, with the sweep and the one retry of a full store.
unfoldable pub reserve_chunk : Medium → Store → ℕ → ℕ → Store × Bool
unfolding reserve reclaim_expired
reserve_chunk k s n now =
    if (reserve s.quota n).1
    then (record s { quota = (reserve s.quota n).0 }, true)
    else (let (t, freed) = reclaim_expired k s now in
        (record t { quota = (reserve t.quota n).0 }, (reserve t.quota n).1))

-- The append of a reserved chunk: what the backing did not store is released.
unfoldable pub append_chunk : Backing → Store → Writer → Bytes → Store × Writer × ℕ × Option Error
unfolding append release
append_chunk b s w p =
    let (buf, n, err) = append b (s.heap w.gen).buf p in
    let t = set_buf s w.gen buf in
    (
      record t { quota = (if ltb n (length p) then release t.quota (length p - n) else t.quota) },
      record w { written = add64 w.written n },
      n,
      err,
    )

unfoldable pub write :
    Medium → Backing → Store → Writer → Bytes → ℕ → Store × Writer × ℕ × Option Error
unfolding per_clip_ok reserve_chunk append_chunk
write k b s w p now =
    if w.done
    then (s, w, 0, some closed)
    else if not (per_clip_ok s.quota w.written (length p))
    then (s, w, 0, some too_large)
    else (let (t, granted) = reserve_chunk k s (length p) now in
        if granted then append_chunk b t w p else (t, w, 0, some no_space))

abbrev pub finalize_error : Bytes → Error → Error
finalize_error name e = wrap (codes "finalize " ++ name) e

-- `discard`; `finish` is its end: `done` is set and the lease is dropped.
unfoldable pub discard : Backing → Store → Writer → Store × Writer
unfolding transition fail reclaim release_handle clip_of
discard b s w =
    let framing = clip_of (s.heap w.gen) in
    let s₁ =
      transition s w.handle
        (λ t. (put_handle t w.handle (record (t.handles w.handle) { live = none }), true)) in
    let s₂ = set_buf s₁ w.gen (fail b (s₁.heap w.gen).buf).0 in
    (release_handle (reclaim s₂ w.gen) w.handle, record w { done = true; framing = framing })

-- `fail`: whether the publish took only tells the medium to retire its record first.
unfoldable pub fail_close : Backing → Store → Writer → Error → Store × Writer × Option Error
unfolding discard
fail_close b s w cause =
    let (t, w') = discard b s w in (t, w', some (finalize_error (s.heap w.gen).name cause))

-- What `Close` reclaims: the value that it replaces, unless that was claimed.
abbrev pub superseded : Store → Option ℕ → Option ℕ
superseded s c = if current_consumed s c then none else c

-- The closure of `Close`: the publication.
unfoldable pub publish : Writer → Store → Store × Option ℕ × Bool
publish w s =
    let cur = (s.handles w.handle).current in
    let prev = superseded s cur in
    let t = put_gen s w.gen (record (s.heap w.gen) { state = finalized }) in
    (
      put_handle t w.handle (record (t.handles w.handle) { current = some w.gen; live = none }),
      prev,
      true,
    )

abbrev pub stamp : Store → ℕ → ℕ → Store
stamp s g now = put_gen s g (record (s.heap g) {
  finalized_at = some now;
  expires = (if slt64 0 (s.heap g).ttl then some (now + (s.heap g).ttl) else (s.heap g).expires);
})

-- After the bytes are durable: the publication, and what follows it off the lock.
unfoldable pub commit_close : Backing → Store → Writer → Store × Writer × Option Error
unfolding publish transition_result finish reclaim release_handle clip_of
commit_close b s w =
    let (s₁, prev) = transition_result s w.handle (publish w) in
    let framing = clip_of (s₁.heap w.gen) in
    let s₂ = set_buf s₁ w.gen (finish b (s₁.heap w.gen).buf).0 in
    (
      release_handle (reclaim_some s₂ prev) w.handle,
      record w { done = true; framing = framing },
      none,
    )

abbrev pub after_finalize : Backing → Store → Writer → Option Error → Store × Writer × Option Error
after_finalize b s w none = commit_close b s w
after_finalize b s w (some e) = fail_close b s w e

unfoldable pub close : Medium → Backing → Store → Writer → ℕ → Store × Writer × Option Error
unfolding sync commit_close fail_close
close k b s w now =
    if w.done
    then (s, w, some closed)
    else (let t = stamp s w.gen now in
        elim (sync b (t.heap w.gen).buf) [
          | some e ↦ fail_close b t w e
          | none ↦ after_finalize b t w (k.finalize (t.heap w.gen)).1
        ])

unfoldable pub abort : Backing → Store → Writer → Store × Writer
unfolding discard
abort b s w = if w.done then (s, w) else discard b s w

-- `Clip`: the framing fixed at the terminal, or a peek while the generation is live.
unfoldable pub writer_clip : Store → Writer → Clip
unfolding clip_of
writer_clip s w = if w.done then w.framing else clip_of (s.heap w.gen)
