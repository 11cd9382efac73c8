-- ===== src/Cli/Exit.antt =====
-- cli/exit.go: the exit code of an error.
use buff.Common.{ℕ, Bool, ◌||◌, Option, none, some, if◌then◌else◌}
use buff.Clip.Errors.{
  Error, is, not_found, consumed, busy, closed, precondition_failed, too_large, no_space, aborted,
  exists, dest_exists, archive_exists, unreachable, unavailable,
}

-- The cases of `exitCode` on an error, in their order.
unfoldable pub error_code : Error → ℕ
unfolding is
error_code e =
    if is e not_found
    then 3
    else if is e consumed
    then 4
    else if is e too_large || is e no_space
    then 5
    else if is e busy
        || is e closed
        || is e precondition_failed
        || is e dest_exists
        || is e archive_exists
        || is e exists
    then 6
    else if is e aborted
    then 7
    else if is e unreachable
    then 8
    else if is e unavailable
    then 9
    else 1

unfoldable pub exit_code : Option Error → ℕ
unfolding error_code
exit_code none = 0
exit_code (some e) = error_code e

-- The sentinels that both the server's table and the client's have, and an exit code is for.
abbrev pub is_shared : Error → Bool
is_shared e =
    is e not_found
    || is e consumed
    || is e too_large
    || is e no_space
    || is e busy
    || is e closed
    || is e precondition_failed
