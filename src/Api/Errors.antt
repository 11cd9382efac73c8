-- ===== src/Api/Errors.antt =====
-- api/errors.go: a domain error as a row of the wire's table.
use buff.Common.{List, [], ◌∷◌, if◌then◌else◌}
use buff.Clip.Errors.{
  Error, is, not_found, consumed, busy, closed, precondition_failed, too_large, no_space,
  name_invalid, filename_invalid, bad_request,
}
use buff.Wire.{
  ErrInfo, info_not_found, info_consumed, info_busy, info_closed, info_precondition, info_too_large,
  info_no_space, info_name_bad, info_bad_req, info_internal,
}

-- `errMap`, in its order.
abbrev pub err_map : List (Error × ErrInfo)
err_map =
    (not_found, info_not_found)
    ∷ (consumed, info_consumed)
    ∷ (busy, info_busy)
    ∷ (closed, info_closed)
    ∷ (precondition_failed, info_precondition)
    ∷ (too_large, info_too_large)
    ∷ (no_space, info_no_space)
    ∷ (name_invalid, info_name_bad)
    ∷ (filename_invalid, info_bad_req)
    ∷ (bad_request, info_bad_req)
    ∷ []

unfoldable pub first_row : Error → List (Error × ErrInfo) → ErrInfo
unfolding is
first_row e [] = info_internal
first_row e ((t, info) ∷ rest) = if is e t then info else first_row e rest

unfoldable pub map_err : Error → ErrInfo
unfolding first_row
map_err e = first_row e err_map
