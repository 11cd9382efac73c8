-- ===== src/Clip/Errors.antt =====
-- clip/errors.go, and the other error values the store, the buffer and the API compare with.
use buff.Common.{ℕ, ◌+◌, ◌≡◌, refl, Bool, Bytes, ◌==◌, ◌||◌, ◌&&◌}

-- The ten sentinels of clip/errors.go, the standard library's and the packages' own sentinels, an
-- error of the operating system by its number, and `fmt.Errorf` with `%w`.
pub data Error : Type 0 where
  not_found consumed busy closed precondition_failed too_large : Error
  no_space name_invalid aborted filename_invalid : Error
  canceled deadline_exceeded : Error
  eof unexpected_eof write_after_terminal negative_offset : Error
  bad_request exists dest_exists archive_exists unreachable unavailable : Error
  fault : ℕ → Error
  http_error : ℕ → Bytes → Error
  wrap : Bytes → Error → Error

-- Sentinels are compared by identity.
abbrev pub identity : Error → ℕ
identity not_found = 0
identity consumed = 1
identity busy = 2
identity closed = 3
identity precondition_failed = 4
identity too_large = 5
identity no_space = 6
identity name_invalid = 7
identity aborted = 8
identity filename_invalid = 9
identity canceled = 10
identity deadline_exceeded = 11
identity eof = 13
identity unexpected_eof = 14
identity write_after_terminal = 15
identity negative_offset = 16
identity bad_request = 17
identity exists = 18
identity dest_exists = 19
identity archive_exists = 20
identity unreachable = 21
identity unavailable = 22
identity (fault n) = 100 + n
identity (http_error status sentinel) = 98
identity (wrap m e) = 99

-- EEXIST and ENOTEMPTY, by Linux's numbers: `syscall.Errno.Is` takes both for `os.ErrExist`.
abbrev pub errno_exists : ℕ → Bool
errno_exists n = n == 17 || n == 39

-- `errors.Is` against a sentinel: along the chain of wrapped errors. `os.ErrNotExist` is ENOENT,
-- `fault 2`, here.
unfoldable pub is : Error → Error → Bool
is (wrap m e) t = is e t
is (fault n) t =
    identity (fault n) == identity t || (errno_exists n && identity t == identity exists)
is e t = identity e == identity t

pub is_wrap : (m : Bytes) (e t : Error) → is (wrap m e) t ≡ is e t
unfolding is
is_wrap m e t = refl
