-- ===== src/Buffer/Log.antt =====
-- The log's own invariant, and reading what it has published.
use Prim.Native.Nat.{min}
use buff.Common.{
  ℕ, ◌+◌, ◌-◌, ◌≤◌, ◌<◌, ◌≡◌, refl, none, List, [], ◌∷◌, ◌++◌, arith, Bytes, length, length-append,
  length-take, length-drop, take, drop, int64_end, leb, piece-append, Bool-cases, inl, inr, ◌∙◌, ap,
}
use buff.Buffer.{Backing, Buffer, append, read_at, read_region, ReadHandle, Section, section_read}

-- Every published byte is stored.
pub record IsLog (b : Buffer) : Type 0 where
  pub published : b.size ≡ length b.stored

-- The contract of `io.Writer`: no more bytes stored than were given.
abbrev pub Honest : Backing → Type 0
Honest k = (p : Bytes) → (k.append_result p).0 ≤ length p

pub append-IsLog :
    (k : Backing) (b : Buffer) (p : Bytes) → Honest k → IsLog b → IsLog (append k b p).0
unfolding append
append-IsLog k b p h w = ground (
  arith,
  h p,
  length-append b.stored (take (k.append_result p).0 p),
  length-take (k.append_result p).0 p,
)

read_at_lem :
    (stored : Bytes) (want off : ℕ)
    → off < length stored
    → length stored < int64_end
    → want ≤ length stored - off
    → read_at stored want off ≡ (take want (drop off stored), none)
unfolding read_at
read_at_lem stored want off h k w =
    ground (arith, length-take want (drop off stored), length-drop off stored)

-- A read below the published bound gives exactly the bytes that stand there, and no error.
pub read_region_lem :
    (stored : Bytes) (room off bound : ℕ)
    → off < bound
    → bound ≤ length stored
    → length stored < int64_end
    → read_region (read_at stored) room off bound
      ≡ (take (min room (bound - off)) (drop off stored), none)
unfolding read_region
read_region_lem stored room off bound h k w =
    rw (read_at_lem stored (min room (bound - off)) off (omega arith) w (omega arith)) refl

-- The calls of `Read` on a section, with the room of each; what they returned, in order.
unfoldable pub read_each : ReadHandle → Section → List ℕ → Section × Bytes
read_each h s [] = (s, [])
read_each h s (room ∷ rooms) =
    let (s', got, err) = section_read h s room in
    let (s'', rest) = read_each h s' rooms in (s'', got ++ rest)

abbrev pub sum : List ℕ → ℕ
sum [] = 0
sum (n ∷ ns) = n + sum ns

section_read_lem :
    (stored : Bytes) (s : Section) (room : ℕ)
    → s.off ≤ s.limit
    → s.limit ≤ length stored
    → length stored < int64_end
    → let r = section_read (read_at stored) s room in
      (r.1 ≡ take (min room (s.limit - s.off)) (drop s.off stored))
      × (r.0.off ≡ s.off + min room (s.limit - s.off))
      × (r.0.limit ≡ s.limit)
unfolding section_read take
section_read_lem stored s room h k w = elim (Bool-cases (leb s.limit s.off)) [
  | inl e ↦ let z : s.limit - s.off ≡ 0 = ground arith in rw (e, section_read) (ground (arith, z))
  | inr e ↦
      rw (e, section_read)
        (rw (read_region_lem stored room s.off s.limit (ground arith) k w) (
          refl,
          ap (◌+◌ s.off) (
              omega (
                arith,
                length-take (min room (s.limit - s.off)) (drop s.off stored),
                length-drop s.off stored,
              )),
          refl,
        ))
]

-- Reads of any sizes on a section of a finished log return, in order and without a gap, the bytes
-- from its offset, as many as the rooms sum to or as are left up to its limit; the offset moves on
-- by that number.
pub read_each_lem :
    (stored : Bytes) (s : Section) (rooms : List ℕ)
    → s.off ≤ s.limit
    → s.limit ≤ length stored
    → length stored < int64_end
    → let r = read_each (read_at stored) s rooms in
      (r.1 ≡ take (min (sum rooms) (s.limit - s.off)) (drop s.off stored))
      × (r.0.off ≡ s.off + min (sum rooms) (s.limit - s.off))
unfolding read_each take
read_each_lem stored s [] h k w =
    let z : min 0 (s.limit - s.off) ≡ 0 = omega arith in rw z (refl, omega arith)
read_each_lem stored s (room ∷ rooms) h k w =
    let r = section_read (read_at stored) s room in
    let (got, moved, same) = section_read_lem stored s room h k w in
    let (rest, end) =
      read_each_lem stored r.0 rooms (rw (moved, same) (omega arith)) (rw same k) w in
    (
      rw (got, rest)
          (piece-append stored s.off (min room (s.limit - s.off))
              (min (sum rooms) (r.0.limit - r.0.off)) r.0.off moved
            ∙ ap (λ n. take n (drop s.off stored)) (rw (moved, same) (omega arith))),
      end ∙ rw (moved, same) (omega arith),
    )
