-- ===== src/Store/Invariant/Writing.antt =====
-- `Write`, `Close` and `Abort` of the writer of a live generation keep the invariant.
use buff.Common.{
  ℕ, ◌+◌, ◌-◌, ◌%◌, ◌≤◌, ◌<◌, ◌≡◌, refl, ◌∙◌, true, false, not, Option, none, some, arith, word,
  if◌then◌else◌, Bool-cases, inl, inr, length, ltb, Bytes,
}
use buff.Buffer.{Backing, Buffer, append}
use buff.Buffer.Log.{Honest}
use buff.Store.Quota.{Quota, reserve, release, per_clip_ok}
use buff.Store.Generation.{Generation}
use buff.Store.State.{Store, put_gen}
use buff.Store.Medium.{Medium}
use buff.Store.Reaper.{reclaim_expired}
use buff.Store.Create.{Writer}
use buff.Store.Writer.{reserve_chunk, append_chunk, write}
use buff.Store.Accounting.{total-update, held_bytes, held_clips}
use buff.Store.Spares.{Spares}
use buff.Store.Spares.Sweep.{reclaim_expired-Spares}
use buff.Store.Invariant.{Inv, AreLoose}
use buff.Store.Invariant.Sweep.{reclaim_expired-Inv}

-- The writer's handle points to its generation as the live one.
pub record Owns (s : Store) (w : Writer) : Type 0 where
  pub known : w.handle < s.next_handle
  pub pointed : (s.handles w.handle).live ≡ some w.gen

pub Owns-Spares : (s t : Store) (w : Writer) → Spares s t → Owns s w → Owns t w
Owns-Spares s t w a o = record {
  known = omega (arith, a.next_le, o.known);
  pointed = a.live_same w.handle o.known ∙ o.pointed;
}

-- A cell that keeps its state, its home and its size.
pub put_gen-Inv :
    (s : Store) (g : ℕ) (v : Generation)
    → g < s.next_gen
    → v.state ≡ (s.heap g).state
    → v.home ≡ (s.heap g).home
    → v.buf.size ≡ (s.heap g).buf.size
    → Inv s
    → Inv (put_gen s g v)
put_gen-Inv s g v l st hm sz i = record {
  current_gen = λ h c e. ground (arith, i.current_gen h c e);
  live_gen = λ h c e. ground (arith, i.live_gen h c e);
  current_once = i.current_once;
  live_once = i.live_once;
  bytes_held = ground (arith, i.bytes_held, total-update held_bytes s.heap s.next_gen g v l);
  clips_held = ground (arith, i.clips_held, total-update held_clips s.heap s.next_gen g v l);
}

pub put_gen-AreLoose :
    (s : Store) (g : ℕ) (v : Generation) (prev : Option ℕ)
    → v.state ≡ (s.heap g).state
    → v.home ≡ (s.heap g).home
    → AreLoose s prev
    → AreLoose (put_gen s g v) prev
put_gen-AreLoose s g v none st hm l = tt
put_gen-AreLoose s g v (some c) st hm l = record {
  allocated = l.allocated;
  homed = ground (arith, l.homed);
  no_current = λ h e. ground (arith, l.no_current h e);
  no_live = l.no_live;
}

append-size :
    (k : Backing) (b : Buffer) (p : Bytes) → (append k b p).0.size ≡ b.size + (append k b p).1
unfolding append
append-size k b p = ground arith

append_bound : (k : Backing) (b : Buffer) (p : Bytes) → Honest k → (append k b p).1 ≤ length p
unfolding append
append_bound k b p h = ground (arith, h p)

-- The bytes that a chunk's append keeps of its reservation.
kept_bytes :
    (q : Quota) (n m : ℕ)
    → q.bytes < word
    → m ≤ n
    → (reserve q n).1 ≡ true
    → (if ltb m n then release (reserve q n).0 (n - m) else (reserve q n).0).bytes
      ≡ (q.bytes + m) % word
unfolding reserve release
kept_bytes q n m b h e = ground arith

kept_clips :
    (q : Quota) (n m : ℕ)
    → (if ltb m n then release (reserve q n).0 (n - m) else (reserve q n).0).clips ≡ q.clips
unfolding reserve release
kept_clips q n m = ground arith

-- A live generation that grows by what the quota holds for it.
grow-Inv :
    (s : Store) (g n : ℕ) (v : Generation) (q : Quota)
    → g < s.next_gen
    → (s.heap g).home ≡ true
    → v.state ≡ (s.heap g).state
    → v.home ≡ true
    → v.buf.size ≡ (s.heap g).buf.size + n
    → q.bytes ≡ (s.quota.bytes + n) % word
    → q.clips ≡ s.quota.clips
    → Inv s
    → Inv (record (put_gen s g v) { quota = q })
grow-Inv s g n v q l hm st hv sz qb qc i = record {
  current_gen = λ h c e. ground (arith, i.current_gen h c e);
  live_gen = λ h c e. ground (arith, i.live_gen h c e);
  current_once = i.current_once;
  live_once = i.live_once;
  bytes_held = ground (arith, i.bytes_held, total-update held_bytes s.heap s.next_gen g v l);
  clips_held = ground (arith, i.clips_held, total-update held_clips s.heap s.next_gen g v l);
}

append_chunk-Inv :
    (b : Backing) (s : Store) (w : Writer) (p : Bytes)
    → Honest b
    → Owns s w
    → (reserve s.quota (length p)).1 ≡ true
    → Inv s
    → Inv (append_chunk b (record s { quota = (reserve s.quota (length p)).0 }) w p).0
unfolding append_chunk
append_chunk-Inv b s w p h o e v =
    let r = append b (s.heap w.gen).buf p in
    let (l, st, hm) = v.live_gen w.handle w.gen o.pointed in
    let m = append_bound b (s.heap w.gen).buf p h in
    let wide : s.quota.bytes < word = omega (arith, v.bytes_held) in
    let i =
      grow-Inv s w.gen r.1 (record (s.heap w.gen) { buf = r.0 })
        (if ltb r.1 (length p)
          then release (reserve s.quota (length p)).0 (length p - r.1)
          else (reserve s.quota (length p)).0)
        l hm refl hm (append-size b (s.heap w.gen).buf p)
        (kept_bytes s.quota (length p) r.1 wide m e) (kept_clips s.quota (length p) r.1) v in
    i

-- A refused reservation changes nothing.
refused : (q : Quota) (n : ℕ) → (reserve q n).1 ≡ false → (reserve q n).0 ≡ q
unfolding reserve
refused q n e = ground arith

pub write-Inv :
    (k : Medium) (b : Backing) (s : Store) (w : Writer) (p : Bytes) (now : ℕ)
    → Honest b
    → (w.done ≡ false → Owns s w)
    → Inv s
    → Inv (write k b s w p now).0
unfolding write reserve_chunk
write-Inv k b s w p now h own v = elim (Bool-cases w.done) [
  | inl d ↦ rw (d, write) v
  | inr d ↦
      let o = own d in
      elim (Bool-cases (not (per_clip_ok s.quota w.written (length p)))) [
        | inl c ↦ rw (d, write) (rw c v)
        | inr c ↦ elim (Bool-cases (reserve s.quota (length p)).1) [
          | inl r ↦ rw (d, write) (rw c (rw r (append_chunk-Inv b s w p h o r v)))
          | inr r ↦
              let t = (reclaim_expired k s now).0 in
              let vt = reclaim_expired-Inv k s now v in
              let ot = Owns-Spares s t w (reclaim_expired-Spares k s now) o in
              elim (Bool-cases (reserve t.quota (length p)).1) [
                | inl f ↦ rw (d, write) (rw c (rw r (rw f (append_chunk-Inv b t w p h ot f vt))))
                | inr f ↦ rw (d, write) (rw c (rw r (rw (f, refused t.quota (length p) f) vt)))
              ]
        ]
      ]
]
