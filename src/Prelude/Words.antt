-- ===== src/Prelude/Words.antt =====
-- 32-bit words. An `int` of the source is its bit pattern, a number below 2 ^ 32: -1 is
-- `minus_one`. Sums wrap, equality is that of the patterns, and `slt` is the signed `<`.
use Prim.Native.Nat.{ℕ, ◌+◌, ◌-◌, ◌%◌}
use mathlib.Core.Bool.{Bool}
use assembly_os.Prelude.Tests.{ltb}

abbrev pub minus_one : ℕ
minus_one = 4294967295

abbrev pub minus_two : ℕ
minus_two = 4294967294

abbrev pub add32 : ℕ → ℕ → ℕ
add32 a b = (a + b) % 4294967296

abbrev pub slt : ℕ → ℕ → Bool
slt a b = ltb ((a + 2147483648) % 4294967296) ((b + 2147483648) % 4294967296)

abbrev pub sub32 : ℕ → ℕ → ℕ
sub32 a b = (a + 4294967296 - b) % 4294967296

-- Status codes: a negative one is an error.
abbrev pub is_error : ℕ → Bool
is_error status = slt status 0
