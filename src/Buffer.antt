-- ===== src/Buffer.antt =====
-- store/internal/buffer/{buffer,backing,memory,sealed}.go: the byte log of one generation, with one
-- writer and any number of readers. A notify channel is known by its number: closing it and making
-- the next one adds 1 to `notify`.
pub mod Follower
pub mod Interleaving
pub mod Log
use buff.Common.{
  ℕ, ◌+◌, ◌-◌, ◌≡◌, ◌⊎◌, inl, inr, Bool, true, false, ◌||◌, Option, none, some, List, [], ◌++◌,
  Bytes, add64, slt64, sub64, if◌then◌else◌, length, take, drop, leb, ltb, ◌==◌,
}
use buff.Clip.Errors.{Error, write_after_terminal, negative_offset, eof, unexpected_eof}
use Prim.Native.Nat.{min}

-- What the calls of one backing answer: how many bytes an append stored, and each call's error.
pub record Backing : Type 0 where
  pub append_result : Bytes → ℕ × Option Error
  pub sync_result : Option Error
  pub open_result : Option Error
  pub close_result : Option Error

-- memory.go: the log takes every byte, and nothing fails.
abbrev pub memory_backing : Backing
memory_backing = record {
  append_result = λ p. (length p, none);
  sync_result = none;
  open_result = none;
  close_result = none;
}

-- sealed.go: nothing is stored; only the shared descriptor's open can fail.
abbrev pub sealed_backing : Option Error → Backing
sealed_backing opened = record {
  append_result = λ p. (0, none);
  sync_result = none;
  open_result = opened;
  close_result = none;
}

-- `stored` is what the backing holds.
pub record Buffer : Type 0 where
  pub size : ℕ
  pub closed : Bool
  pub aborted : Bool
  pub notify : ℕ
  pub stored : Bytes

unfoldable pub new_buffer : Buffer
new_buffer = record { size = 0; closed = false; aborted = false; notify = 0; stored = [] }

unfoldable pub new_sealed_buffer : Bytes → ℕ → Buffer
new_sealed_buffer stored size = record {
  size = size;
  closed = true;
  aborted = false;
  notify = 0;
  stored = stored;
}

unfoldable pub wake_locked : Buffer → Buffer
wake_locked b = record b { notify = b.notify + 1 }

unfoldable pub advance : Buffer → ℕ → Buffer
unfolding wake_locked
advance b n = wake_locked (record b { size = b.size + n })

unfoldable pub terminated : Buffer → Bool
terminated b = b.closed || b.aborted

-- The backing stores the first `n` bytes, and only then are they published.
unfoldable pub append : Backing → Buffer → Bytes → Buffer × ℕ × Option Error
unfolding advance terminated
append k b p =
    if terminated b
    then (b, 0, some write_after_terminal)
    else (let (n, err) = k.append_result p in
        let b' = record b { stored = b.stored ++ take n p } in
        (if ltb 0 n then advance b' n else b', n, err))

unfoldable pub sync : Backing → Buffer → Option Error
unfolding terminated
sync k b = if terminated b then some write_after_terminal else k.sync_result

unfoldable pub finish : Backing → Buffer → Buffer × Option Error
unfolding wake_locked
finish k b = (wake_locked (record b { closed = true }), k.close_result)

unfoldable pub fail : Backing → Buffer → Buffer × Option Error
unfolding wake_locked
fail k b = (wake_locked (record b { aborted = true }), k.close_result)

-- `ReadAt` of memory.go on a buffer of `room` bytes, at an int64 offset.
unfoldable pub read_at : Bytes → ℕ → ℕ → Bytes × Option Error
read_at stored room off =
    if slt64 off 0
    then ([], some negative_offset)
    else if leb (length stored) off
    then ([], some eof)
    else (let got = take room (drop off stored) in
        (got, if ltb (length got) room then some eof else none))

-- A read handle: `ReadAt` by the room and the offset.
abbrev pub ReadHandle : Type 0
ReadHandle = ℕ → ℕ → Bytes × Option Error

abbrev is_eof : Option Error → Bool
is_eof (some eof) = true
is_eof _ = false

-- `io.EOF` of a full read is none, and of a short one is unexpected: what was published must exist.
unfoldable pub read_region : ReadHandle → ℕ → ℕ → ℕ → Bytes × Option Error
read_region h room off bound =
    let want = min room (bound - off) in
    let (got, err) = h want off in
    (got, if is_eof err then (if length got == want then none else some unexpected_eof) else err)

-- `sectionReader`: the reader of a finished log.
pub record Section : Type 0 where
  pub limit : ℕ
  pub off : ℕ

unfoldable pub open_section : Backing → Buffer → Section ⊎ Error
open_section k b = elim k.open_result [
  | none ↦ inl (record { limit = b.size; off = 0 })
  | some e ↦ inr e
]

unfoldable pub section_read : ReadHandle → Section → ℕ → Section × Bytes × Option Error
section_read h s room =
    if leb s.limit s.off
    then (s, [], some eof)
    else (let (got, err) = read_region h room s.off s.limit in
        (record s { off = s.off + length got }, got, err))
