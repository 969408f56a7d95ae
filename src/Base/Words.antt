-- ===== src/Base/Words.antt =====
-- Machine words: `int32_t` is its bit pattern, a number below 2 ^ 32, as in two's complement.
use Prim.Native.Nat.{ℕ, ◌+◌, ◌-◌, ◌%◌, ◌^◌}
use mathlib.Core.Bool.{Bool, ◌||◌}
use janken.Base.Tests.{leb, ◌==◌}

abbrev pub word : ℕ
word = 2 ^ 32

-- `a + b` and `a - b` at `int32_t`, with the wrap of the pattern.
abbrev pub add32 : ℕ → ℕ → ℕ
add32 a b = (a + b) % word

abbrev pub sub32 : ℕ → ℕ → ℕ
sub32 a b = (a + word - b) % word

-- `a <= 0` at `int32_t`.
abbrev pub nonpositive : ℕ → Bool
nonpositive a = a == 0 || leb (2 ^ 31) a
