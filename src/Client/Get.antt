-- ===== src/Client/Get.antt =====
-- client/get.go: the body of a response, whose last read decides whether it was complete.
use buff.Common.{ℕ, ◌+◌, Bool, Option, none, some, Bytes, length, bytes_eq, ◌==◌, if◌then◌else◌}
use buff.Clip.Errors.{Error, aborted, eof, wrap}
use buff.Wire.Headers.{Header, get}
use buff.Wire.Responses.{header_status, status_complete}

-- `resp.ContentLength`, `none` for -1, and the trailer, which is filled when the body ends.
pub record Body : Type 0 where
  pub name : Bytes
  pub content_length : Option ℕ
  pub count : ℕ

unfoldable pub new_body : Bytes → Option ℕ → Body
new_body name content_length = record { name = name; content_length = content_length; count = 0 }

-- The result of a read of the underlying body: an error that is not `io.EOF` is `failed`.
pub data ReadEnd : Type 0 where
  going_on ended : ReadEnd
  failed : Error → ReadEnd

unfoldable pub complete : Body → Header → Bool
unfolding get bytes_eq
complete b trailer = elim b.content_length [
  | some n ↦ b.count == n
  | none ↦ bytes_eq (get trailer header_status) status_complete
]

-- The cause that is wrapped alongside is not kept.
abbrev pub torn : Body → Error
torn b = wrap b.name aborted

abbrev pub read_end : Body → Header → ReadEnd → Option Error
read_end b trailer going_on = none
read_end b trailer ended = if complete b trailer then some eof else some (torn b)
read_end b trailer (failed e) = some (torn b)

-- `Read`: the body, the bytes and the error.
unfoldable pub read_body : Body → Header → Bytes → ReadEnd → Body × Bytes × Option Error
unfolding complete
read_body b trailer got e =
    let b' = record b { count = b.count + length got } in (b', got, read_end b' trailer e)
