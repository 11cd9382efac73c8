-- ===== src/Client/Opts.antt =====
-- client/client.go: the options of a write and of a read.
use buff.Common.{ℕ, Bool, false, [], Bytes}

-- A TTL is an int64 of nanoseconds.
pub record PutOpts : Type 0 where
  pub ttl : ℕ
  pub keep : Bool
  pub consume_once : Bool
  pub if_match : Bytes

pub record GetOpts : Type 0 where
  pub wait : Bool
  pub follow_next : Bool

abbrev pub no_put : PutOpts
no_put = record { ttl = 0; keep = false; consume_once = false; if_match = [] }

abbrev pub no_get : GetOpts
no_get = record { wait = false; follow_next = false }
