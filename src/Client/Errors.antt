-- ===== src/Client/Errors.antt =====
-- client/errors.go: an answer of the server as a typed error.
use buff.Common.{
  ℕ, ◌≡◌, refl, ◌≤◌, arith, false, List, [], ◌∷◌, Bytes, bytes_eq, if◌then◌else◌, ◌==◌,
}
use buff.Clip.Errors.{
  Error, is, identity, not_found, consumed, busy, closed, precondition_failed, too_large, no_space,
  name_invalid, aborted, filename_invalid, canceled, deadline_exceeded, eof, unexpected_eof,
  write_after_terminal, negative_offset, bad_request, exists, dest_exists, archive_exists,
  unreachable, unavailable, fault, http_error, wrap,
}
use buff.Wire.{
  ErrInfo, info_not_found, info_consumed, info_busy, info_closed, info_precondition, info_too_large,
  info_no_space, info_name_bad,
}
use buff.Api.Errors.{map_err, first_row}

-- `errRows`, in its order.
abbrev pub err_rows : List (ErrInfo × Error)
err_rows =
    (info_not_found, not_found)
    ∷ (info_consumed, consumed)
    ∷ (info_busy, busy)
    ∷ (info_closed, closed)
    ∷ (info_precondition, precondition_failed)
    ∷ (info_too_large, too_large)
    ∷ (info_no_space, no_space)
    ∷ (info_name_bad, name_invalid)
    ∷ []

unfoldable pub named_error : Bytes → ℕ → List (ErrInfo × Error) → Error
unfolding bytes_eq
named_error sentinel status [] = if status == 503 then unavailable else http_error status sentinel
named_error sentinel status ((info, e) ∷ rest) =
    if bytes_eq info.sentinel sentinel then e else named_error sentinel status rest

-- `responseError`, of the `Buff-Error` header and the status; the body is only drained.
unfoldable pub response_error : Bytes → ℕ → Error
unfolding named_error
response_error sentinel status = named_error sentinel status err_rows

-- What the client makes of the answer that the server gives for an error.
abbrev pub across : Error → Error
across e = response_error (map_err e).sentinel (map_err e).status

-- The sentinels that both tables have.
pub data IsShared : Error → Type 0 where
  not_found_shared : IsShared not_found
  consumed_shared : IsShared consumed
  busy_shared : IsShared busy
  closed_shared : IsShared closed
  precondition_shared : IsShared precondition_failed
  too_large_shared : IsShared too_large
  no_space_shared : IsShared no_space
  name_shared : IsShared name_invalid

IsShared-low : {t : Error} → IsShared t → identity t ≤ 7
IsShared-low not_found_shared = omega arith
IsShared-low consumed_shared = omega arith
IsShared-low busy_shared = omega arith
IsShared-low closed_shared = omega arith
IsShared-low precondition_shared = omega arith
IsShared-low too_large_shared = omega arith
IsShared-low no_space_shared = omega arith
IsShared-low name_shared = omega arith

low_is-across : (e t : Error) → identity t ≤ 7 → is (across e) t ≡ is e t
unfolding is first_row map_err named_error response_error bytes_eq
low_is-across not_found t h = refl
low_is-across consumed t h = refl
low_is-across busy t h = refl
low_is-across closed t h = refl
low_is-across precondition_failed t h = refl
low_is-across too_large t h = refl
low_is-across no_space t h = refl
low_is-across name_invalid t h = refl
low_is-across aborted t h = ground arith
low_is-across filename_invalid t h = ground arith
low_is-across canceled t h = ground arith
low_is-across deadline_exceeded t h = ground arith
low_is-across eof t h = ground arith
low_is-across unexpected_eof t h = ground arith
low_is-across write_after_terminal t h = ground arith
low_is-across negative_offset t h = ground arith
low_is-across bad_request t h = ground arith
low_is-across exists t h = ground arith
low_is-across dest_exists t h = ground arith
low_is-across archive_exists t h = ground arith
low_is-across unreachable t h = ground arith
low_is-across unavailable t h = ground arith
low_is-across (fault n) t h = ground arith
low_is-across (http_error n s) t h = ground arith
low_is-across (wrap m e) t h = low_is-across e t h

-- No answer is taken for an error that only a client makes.
pub high_is-across : (e t : Error) → 8 ≤ identity t → identity t ≤ 97 → is (across e) t ≡ false
unfolding is first_row map_err named_error response_error bytes_eq
high_is-across not_found t h k = ground arith
high_is-across consumed t h k = ground arith
high_is-across busy t h k = ground arith
high_is-across closed t h k = ground arith
high_is-across precondition_failed t h k = ground arith
high_is-across too_large t h k = ground arith
high_is-across no_space t h k = ground arith
high_is-across name_invalid t h k = ground arith
high_is-across aborted t h k = ground arith
high_is-across filename_invalid t h k = ground arith
high_is-across canceled t h k = ground arith
high_is-across deadline_exceeded t h k = ground arith
high_is-across eof t h k = ground arith
high_is-across unexpected_eof t h k = ground arith
high_is-across write_after_terminal t h k = ground arith
high_is-across negative_offset t h k = ground arith
high_is-across bad_request t h k = ground arith
high_is-across exists t h k = ground arith
high_is-across dest_exists t h k = ground arith
high_is-across archive_exists t h k = ground arith
high_is-across unreachable t h k = ground arith
high_is-across unavailable t h k = ground arith
high_is-across (fault n) t h k = ground arith
high_is-across (http_error n s) t h k = ground arith
high_is-across (wrap m e) t h k = high_is-across e t h k

-- An error that crosses the wire keeps its identity: for each sentinel that both tables have, the
-- error that the client makes of the server's answer is that sentinel exactly when the server's
-- error, however wrapped, was.
pub is-across : (e t : Error) → IsShared t → is (across e) t ≡ is e t
is-across e t h = low_is-across e t (IsShared-low h)
