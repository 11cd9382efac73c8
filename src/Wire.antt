-- ===== src/Wire.antt =====
-- wire/wire.go: the canonical table of error answers, from which the server's map and the client's
-- reverse map are built.
pub mod Headers
pub mod Responses
use buff.Common.{ℕ, Bytes, codes}

pub record ErrInfo : Type 0 where
  pub sentinel : Bytes
  pub status : ℕ

abbrev pub info_not_found : ErrInfo
info_not_found = record { sentinel = codes "not_found"; status = 404 }

abbrev pub info_consumed : ErrInfo
info_consumed = record { sentinel = codes "consumed"; status = 410 }

abbrev pub info_busy : ErrInfo
info_busy = record { sentinel = codes "busy"; status = 409 }

abbrev pub info_closed : ErrInfo
info_closed = record { sentinel = codes "closed"; status = 409 }

abbrev pub info_precondition : ErrInfo
info_precondition = record { sentinel = codes "precondition_failed"; status = 412 }

abbrev pub info_too_large : ErrInfo
info_too_large = record { sentinel = codes "too_large"; status = 413 }

abbrev pub info_no_space : ErrInfo
info_no_space = record { sentinel = codes "no_space"; status = 507 }

abbrev pub info_name_bad : ErrInfo
info_name_bad = record { sentinel = codes "name_invalid"; status = 400 }

abbrev pub info_bad_req : ErrInfo
info_bad_req = record { sentinel = codes "bad_request"; status = 400 }

abbrev pub info_internal : ErrInfo
info_internal = record { sentinel = codes "internal"; status = 500 }

abbrev pub info_unavailable : ErrInfo
info_unavailable = record { sentinel = codes "unavailable"; status = 503 }
