-- ===== src/Store/Medium.antt =====
-- store/medium.go: where the bytes and the record of a generation live. The answers of one medium
-- in the course of one operation: each commit point says whether it took, and its fault.
use buff.Common.{Bool, true, Option, none}
use buff.Clip.Errors.{Error}
use buff.Store.GenId.{GenId}
use buff.Store.Generation.{Generation}

pub record Medium : Type 0 where
  pub create : GenId → Option Error
  pub finalize : Generation → Bool × Option Error
  pub claim : Generation → Bool × Option Error
  pub unpublish : Generation → Bool × Option Error

-- `memMedium`
abbrev pub memory_medium : Medium
memory_medium = record {
  create = λ id. none;
  finalize = λ g. (true, none);
  claim = λ g. (true, none);
  unpublish = λ g. (true, none);
}
