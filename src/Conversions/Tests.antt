-- ===== src/Conversions/Tests.antt =====
-- C integers at which the theorems of Conversions are applied.
use vicare_scheme.Base.{ℕ, ◌-◌, ◌^◌, ◌≡◌, refl, some, arith}
use vicare_scheme.Numerics.Words.{fixnum_int, word_int, unfix, word_base}
use vicare_scheme.Numerics.Bignum.{fixnum, IsInteger, int_of}
use vicare_scheme.Conversions.{signed_value}
use vicare_scheme.Conversions.ToC.{to_uint64, fits_unsigned}
use vicare_scheme.Conversions.Types.{c_long, c_uint64, width, value, from_c, to_c}
use vicare_scheme.Conversions.RoundTrip.{from_c-Exact, to_c-exact, to_c-from_c}

-- The least `long`, as its bit pattern.
abbrev least_long : ℕ
least_long = 2 ^ 63

-- A negative fixnum is out of the range of an unsigned type.
to_uint64_minus_one : to_uint64 (fixnum (word_base - 8)) ≡ 47
unfolding to_uint64 fits_unsigned unfix
to_uint64_minus_one = refl

from_c-Exact_example :
    IsInteger (from_c c_long least_long)
    × (int_of (from_c c_long least_long) ≡ value c_long least_long)
unfolding width
from_c-Exact_example = from_c-Exact c_long least_long (omega arith)

-- The fixnum 5.
five-IsInteger : IsInteger (fixnum 40)
five-IsInteger = omega arith

to_c-exact_example : to_c c_long (fixnum 40) ≡ some 5
unfolding width value signed_value fixnum_int word_int unfix
to_c-exact_example = to_c-exact c_long 5 (fixnum 40) (omega arith) five-IsInteger refl

to_c-from_c_example : to_c c_uint64 (from_c c_uint64 (word_base - 1)) ≡ some (word_base - 1)
unfolding width
to_c-from_c_example = to_c-from_c c_uint64 (word_base - 1) (omega arith)
