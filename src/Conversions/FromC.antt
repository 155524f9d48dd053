-- ===== src/Conversions/FromC.antt =====
-- `ika_integer_from_*` and `ikrt_integer_from_machine_word`. A switch on the size of a type is the branch
-- that the platform takes.
use vicare_scheme.Base.{ℕ, [], ◌∷◌, ◌==◌, leb, true, false, if◌then◌else◌}
use vicare_scheme.Numerics.Words.{fix, unfix, negate, most_positive_fixnum}
use vicare_scheme.Numerics.Bignum.{Value, fixnum, bignum, first_word}
use vicare_scheme.Numerics.Addition.{is_positive}
use vicare_scheme.Conversions.{extend}

unfoldable pub from_long : ℕ → Value
from_long n =
    if unfix (fix n) == n
    then fixnum (fix n)
    else if is_positive n
    then bignum (record { first = first_word 1 false; limbs = n ∷ [] })
    else bignum (record { first = first_word 1 true; limbs = negate n ∷ [] })

unfoldable pub from_int : ℕ → Value
from_int n = from_long (extend 32 n)

-- `(long) N == N` holds of every `long long`.
unfoldable pub from_llong : ℕ → Value
from_llong n = from_long n

unfoldable pub from_ulong : ℕ → Value
from_ulong n =
    if leb n most_positive_fixnum
    then fixnum (fix n)
    else bignum (record { first = first_word 1 false; limbs = n ∷ [] })

unfoldable pub from_uint : ℕ → Value
from_uint n = from_ulong n

-- `(unsigned long) N == N` holds of every `unsigned long long`.
unfoldable pub from_ullong : ℕ → Value
from_ullong n = from_ulong n

unfoldable pub from_sint8 : ℕ → Value
from_sint8 n = fixnum (fix (extend 8 n))

unfoldable pub from_uint8 : ℕ → Value
from_uint8 n = fixnum (fix n)

unfoldable pub from_sint16 : ℕ → Value
from_sint16 n = fixnum (fix (extend 16 n))

unfoldable pub from_uint16 : ℕ → Value
from_uint16 n = fixnum (fix n)

unfoldable pub from_sint32 : ℕ → Value
from_sint32 n =
    if unfix (fix (extend 32 n)) == extend 32 n then fixnum (fix (extend 32 n)) else from_int n

unfoldable pub from_uint32 : ℕ → Value
from_uint32 n = if leb n most_positive_fixnum then fixnum (fix n) else from_uint n

unfoldable pub from_sint64 : ℕ → Value
from_sint64 n = if unfix (fix n) == n then fixnum (fix n) else from_llong n

unfoldable pub from_uint64 : ℕ → Value
from_uint64 n = if leb n most_positive_fixnum then fixnum (fix n) else from_ullong n

unfoldable pub from_off_t : ℕ → Value
from_off_t n = from_sint64 n

unfoldable pub from_ssize_t : ℕ → Value
from_ssize_t n = from_sint64 n

unfoldable pub from_size_t : ℕ → Value
from_size_t n = from_uint64 n

unfoldable pub from_ptrdiff_t : ℕ → Value
from_ptrdiff_t n = from_sint64 n

unfoldable pub from_sword : ℕ → Value
from_sword n = from_sint64 n

unfoldable pub from_uword : ℕ → Value
from_uword n = from_uint64 n

-- The machine word itself is the argument.
unfoldable pub from_machine_word : ℕ → Value
from_machine_word n = from_uint64 n
