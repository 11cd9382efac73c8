-- ===== src/Common/Int64.antt =====
-- Go's int64 and uint64 as 64-bit patterns, with the wrap-around written out.
use Prim.Native.Nat.{ℕ, ◌+◌, ◌-◌, ◌%◌, ◌^◌}
use mathlib.Core.Bool.{Bool}
use buff.Common.Tests.{ltb}

abbrev pub word : ℕ
word = 2 ^ 64

-- The first value that an int64 does not hold.
abbrev pub int64_end : ℕ
int64_end = 2 ^ 63

abbrev pub add64 : ℕ → ℕ → ℕ
add64 a b = (a + b) % word

abbrev pub sub64 : ℕ → ℕ → ℕ
sub64 a b = (a + (word - b % word)) % word

-- The signed order of two patterns.
abbrev pub slt64 : ℕ → ℕ → Bool
slt64 a b = ltb ((a + int64_end) % word) ((b + int64_end) % word)
