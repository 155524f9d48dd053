-- ===== src/Conversions/ToC.antt =====
-- `ik_integer_to_*`, `ika_integer_to_sword`, `ika_integer_to_uword` and `ikrt_integer_to_machine_word`. The
-- answer `none` is a failed `assert`; an integer out of range gives 47, the bits of `#f`, or is cut.
use vicare_scheme.Base.{
  ℕ, ◌-◌, ◌^◌, Option, none, some, Bool, leb, ltb, ◌||◌, ◌&&◌, ◌==◌, get_or, true, false,
  if◌then◌else◌,
}
use vicare_scheme.Numerics.Words.{unfix, negate}
use vicare_scheme.Numerics.Bignum.{Block, Value, fixnum, bignum, first_word, negative_bit}
use vicare_scheme.Conversions.{low}

-- An exact integer, or the void object.
pub data Argument : Type 0 where
  integer : Value → Argument
  void : Argument

-- `IK_REF (x, off_bignum_data)`
abbrev pub data_word : Block → ℕ
data_word b = get_or b.limbs 0 0

-- The first limb, negated where the sign bit is set.
unfoldable pub signed_limb : Block → ℕ
signed_limb b = if negative_bit b.first then negate (data_word b) else data_word b

unfoldable pub to_int : Argument → ℕ
to_int (integer (fixnum w)) = low 32 (unfix w)
to_int (integer (bignum b)) = low 32 (signed_limb b)
to_int void = 0

unfoldable pub to_long : Argument → ℕ
to_long (integer (fixnum w)) = unfix w
to_long (integer (bignum b)) = signed_limb b
to_long void = 0

unfoldable pub to_uint : Argument → Option ℕ
to_uint (integer (fixnum w)) = some (low 32 (unfix w))
to_uint (integer (bignum b)) = if negative_bit b.first then none else some (low 32 (data_word b))
to_uint void = some 0

unfoldable pub to_ulong : Argument → Option ℕ
to_ulong (integer (fixnum w)) = some (unfix w)
to_ulong (integer (bignum b)) = if negative_bit b.first then none else some (data_word b)
to_ulong void = some 0

unfoldable pub to_llong : Argument → ℕ
to_llong (integer (fixnum w)) = unfix w
to_llong (integer (bignum b)) =
    if b.first == first_word 1 false
    then data_word b
    else if b.first == first_word 1 true
    then negate (data_word b)
    else if negative_bit b.first
    then negate (data_word b)
    else data_word b
to_llong void = 0

unfoldable pub to_ullong : Argument → Option ℕ
to_ullong (integer (fixnum w)) = some (unfix w)
to_ullong (integer (bignum b)) = if negative_bit b.first then none else some (data_word b)
to_ullong void = some 0

-- `(0 <= X) && (X <= UINT_MAX)` and `(INT_MIN <= X) && (X <= INT_MAX)` for w bits, on a signed word.
unfoldable pub fits_unsigned : ℕ → ℕ → Bool
fits_unsigned w x = ltb x (2 ^ 63) && ltb x (2 ^ w)

unfoldable pub fits_signed : ℕ → ℕ → Bool
fits_signed w x = ltb x (2 ^ (w - 1)) || leb (2 ^ 64 - 2 ^ (w - 1)) x

unfoldable pub to_uint8 : Value → Option ℕ
to_uint8 (fixnum w) = some (if fits_unsigned 8 (unfix w) then low 8 (unfix w) else 47)
to_uint8 (bignum b) = none

unfoldable pub to_sint8 : Value → Option ℕ
to_sint8 (fixnum w) = some (if fits_signed 8 (unfix w) then low 8 (unfix w) else 47)
to_sint8 (bignum b) = none

unfoldable pub to_uint16 : Value → Option ℕ
to_uint16 (fixnum w) = some (if fits_unsigned 16 (unfix w) then low 16 (unfix w) else 47)
to_uint16 (bignum b) = none

unfoldable pub to_sint16 : Value → Option ℕ
to_sint16 (fixnum w) = some (if fits_signed 16 (unfix w) then low 16 (unfix w) else 47)
to_sint16 (bignum b) = none

-- The low half of the first limb, negated where the sign bit is set.
unfoldable pub half_limb : Block → ℕ
half_limb b =
    let n = low 32 (data_word b) in if negative_bit b.first then low 32 (2 ^ 32 - n) else n

unfoldable pub to_uint32 : Value → ℕ
to_uint32 (fixnum w) = if fits_unsigned 32 (unfix w) then low 32 (unfix w) else 47
to_uint32 (bignum b) = half_limb b

unfoldable pub to_sint32 : Value → ℕ
to_sint32 (fixnum w) = if fits_signed 32 (unfix w) then low 32 (unfix w) else 47
to_sint32 (bignum b) = half_limb b

unfoldable pub to_uint64 : Value → ℕ
to_uint64 (fixnum w) = if fits_unsigned 64 (unfix w) then unfix w else 47
to_uint64 (bignum b) = signed_limb b

unfoldable pub to_sint64 : Value → ℕ
to_sint64 (fixnum w) = if fits_signed 64 (unfix w) then unfix w else 47
to_sint64 (bignum b) = signed_limb b

unfoldable pub to_off_t : Value → ℕ
to_off_t v = to_sint64 v

unfoldable pub to_size_t : Value → ℕ
to_size_t v = to_uint64 v

unfoldable pub to_ssize_t : Value → ℕ
to_ssize_t v = to_sint64 v

unfoldable pub to_ptrdiff_t : Value → ℕ
to_ptrdiff_t v = to_sint64 v

unfoldable pub to_sword : Value → ℕ
to_sword v = to_sint64 v

unfoldable pub to_uword : Value → ℕ
to_uword v = to_uint64 v

unfoldable pub to_machine_word : Value → ℕ
to_machine_word v = to_uint64 v
