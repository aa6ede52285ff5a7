-- ===== src/Prelude/Words.antt =====
-- C integers as bit patterns: `int` and `pid_t` below 2 ^ 32, `long` and `unsigned long` below
-- 2 ^ 64. The kernel is built with -fno-strict-overflow, so signed arithmetic wraps too.
use Prim.Native.Nat.{ℕ, ◌+◌, ◌-◌, ◌*◌, ◌%◌, ◌^◌, ◌<◌}
use mathlib.Core.Path.{◌≡◌}
use mathlib.Core.Bool.{Bool}
use native.Mathlib.Omega.{arith}
use model_lib.Prelude.Tests.{ltb, leb, if◌then◌else◌}

abbrev pub inc32 : ℕ → ℕ
inc32 w = (w + 1) % 2 ^ 32

abbrev pub dec32 : ℕ → ℕ
dec32 w = (w + 2 ^ 32 - 1) % 2 ^ 32

abbrev pub inc64 : ℕ → ℕ
inc64 w = (w + 1) % 2 ^ 64

abbrev pub add64 : ℕ → ℕ → ℕ
add64 a b = (a + b) % 2 ^ 64

abbrev pub sub64 : ℕ → ℕ → ℕ
sub64 a b = (a + 2 ^ 64 - b) % 2 ^ 64

abbrev pub dec64 : ℕ → ℕ
dec64 w = sub64 w 1

abbrev pub mul64 : ℕ → ℕ → ℕ
mul64 a b = (a * b) % 2 ^ 64

-- The order of two `int`s: the sign bit is flipped, so that patterns compare as numbers.
abbrev pub int_le : ℕ → ℕ → Bool
int_le a b = leb ((a + 2 ^ 31) % 2 ^ 32) ((b + 2 ^ 31) % 2 ^ 32)

abbrev pub int_lt : ℕ → ℕ → Bool
int_lt a b = ltb ((a + 2 ^ 31) % 2 ^ 32) ((b + 2 ^ 31) % 2 ^ 32)

-- `(unsigned long)x` of an `int`, and `(int)x` of a `long`.
abbrev pub sign_extend : ℕ → ℕ
sign_extend w = if ltb w (2 ^ 31) then w else w + (2 ^ 64 - 2 ^ 32)

abbrev pub truncate32 : ℕ → ℕ
truncate32 l = l % 2 ^ 32

-- On small values the order of `int`s is that of the numbers.
pub int_le_small : (a b : ℕ) → a < 2 ^ 31 → b < 2 ^ 31 → int_le a b ≡ leb a b
int_le_small a b ha hb = ground arith
