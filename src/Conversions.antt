-- ===== src/Conversions.antt =====
-- Exact integers from C integers and back (src/ikarus-objects.c), on a platform where an `int` has 32 bits
-- and a `long`, a `long long` and a pointer have 64. A C integer of w bits is its bit pattern, a number
-- below 2 ^ w.
pub mod FromC
pub mod ToC
pub mod Types
pub mod Exact
pub mod Reading
pub mod RoundTrip
mod Tests
use vicare_scheme.Base.{ℕ, ◌+◌, ◌-◌, ◌%◌, ◌^◌, ltb, if◌then◌else◌}
use vicare_scheme.Base.Int.{ℤ, pos, negsuc}

-- A signed integer of w bits as a word.
unfoldable pub extend : ℕ → ℕ → ℕ
extend w n = if ltb n (2 ^ (w - 1)) then n else n + 2 ^ 64 - 2 ^ w

-- A word cut to w bits.
unfoldable pub low : ℕ → ℕ → ℕ
low w n = n % 2 ^ w

-- The integer that w bits stand for in two's complement.
unfoldable pub signed_value : ℕ → ℕ → ℤ
signed_value w n = if ltb n (2 ^ (w - 1)) then pos n else negsuc (2 ^ w - n - 1)
