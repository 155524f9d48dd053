-- ===== src/Conversions/Reading.antt =====
-- What the functions of ToC return for an integer in the range of their type.
use vicare_scheme.Base.{ℕ, ◌^◌, ◌<◌, ◌≡◌, refl, ap, ◌∙◌, true, false, some, arith}
use vicare_scheme.Base.Int.{pos}
use vicare_scheme.Numerics.Words.{word_base, unfix, IsFixnum, fixnum_int, word_int}
use vicare_scheme.Numerics.Bignum.{
  Block, Value, fixnum, bignum, negative_bit-first_word, IsInteger, int_of,
}
use vicare_scheme.Conversions.{low, signed_value}
use vicare_scheme.Conversions.Exact.{
  signed_limb-exact, data_word-exact, not_narrow, not_narrow_natural,
}
use vicare_scheme.Conversions.ToC.{
  integer, signed_limb, fits_signed, fits_unsigned, to_int, to_long, to_llong, to_uint, to_ulong,
  to_ullong, to_sint8, to_uint8, to_sint16, to_uint16, to_sint32, to_uint32, to_sint64, to_uint64,
}

fixnum_long :
    (w n : ℕ) → IsFixnum w → n < word_base → fixnum_int w ≡ signed_value 64 n → unfix w ≡ n
unfolding fixnum_int word_int signed_value unfix
fixnum_long w n h f e = ground arith

fixnum_natural : (w n : ℕ) → IsFixnum w → fixnum_int w ≡ pos n → (unfix w ≡ n) × (n < 2 ^ 63)
unfolding fixnum_int word_int unfix
fixnum_natural w n h e = ground arith

fixnum_int32 :
    (w n : ℕ)
    → IsFixnum w
    → n < 2 ^ 32
    → fixnum_int w ≡ signed_value 32 n
    → (low 32 (unfix w) ≡ n) × (fits_signed 32 (unfix w) ≡ true)
unfolding fixnum_int word_int signed_value unfix low fits_signed
fixnum_int32 w n h f e = ground arith

fixnum_int16 :
    (w n : ℕ)
    → IsFixnum w
    → n < 2 ^ 16
    → fixnum_int w ≡ signed_value 16 n
    → (low 16 (unfix w) ≡ n) × (fits_signed 16 (unfix w) ≡ true)
unfolding fixnum_int word_int signed_value unfix low fits_signed
fixnum_int16 w n h f e = ground arith

fixnum_int8 :
    (w n : ℕ)
    → IsFixnum w
    → n < 2 ^ 8
    → fixnum_int w ≡ signed_value 8 n
    → (low 8 (unfix w) ≡ n) × (fits_signed 8 (unfix w) ≡ true)
unfolding fixnum_int word_int signed_value unfix low fits_signed
fixnum_int8 w n h f e = ground arith

fits_long : (x : ℕ) → fits_signed 64 x ≡ true
unfolding fits_signed
fits_long x = ground arith

module _ (n : ℕ) (fits : n < word_base) where
  pub to_long-exact :
      (v : Value) → IsInteger v → int_of v ≡ signed_value 64 n → to_long (integer v) ≡ n
  unfolding to_long
  to_long-exact (fixnum w) h e = fixnum_long w n h fits e
  to_long-exact (bignum b) h e = signed_limb-exact b n h fits e

  to_llong-limb : (b : Block) → to_llong (integer (bignum b)) ≡ signed_limb b
  unfolding to_llong signed_limb
  to_llong-limb b = ground (
    arith,
    negative_bit-first_word 1 false (omega arith),
    negative_bit-first_word 1 true (omega arith),
  )

  pub to_llong-exact :
      (v : Value) → IsInteger v → int_of v ≡ signed_value 64 n → to_llong (integer v) ≡ n
  unfolding to_llong
  to_llong-exact (fixnum w) h e = fixnum_long w n h fits e
  to_llong-exact (bignum b) h e = to_llong-limb b ∙ signed_limb-exact b n h fits e

  pub to_sint64-exact : (v : Value) → IsInteger v → int_of v ≡ signed_value 64 n → to_sint64 v ≡ n
  unfolding to_sint64
  to_sint64-exact (fixnum w) h e = rw (fits_long (unfix w)) (fixnum_long w n h fits e)
  to_sint64-exact (bignum b) h e = signed_limb-exact b n h fits e

  pub to_ulong-exact : (v : Value) → IsInteger v → int_of v ≡ pos n → to_ulong (integer v) ≡ some n
  unfolding to_ulong
  to_ulong-exact (fixnum w) h e = ap some (fixnum_natural w n h e).0
  to_ulong-exact (bignum b) h e =
      let (sign, same) = data_word-exact b n h fits e in rw (sign, same) refl

  pub to_ullong-exact :
      (v : Value) → IsInteger v → int_of v ≡ pos n → to_ullong (integer v) ≡ some n
  unfolding to_ullong
  to_ullong-exact (fixnum w) h e = ap some (fixnum_natural w n h e).0
  to_ullong-exact (bignum b) h e =
      let (sign, same) = data_word-exact b n h fits e in rw (sign, same) refl

  pub to_uint64-exact : (v : Value) → IsInteger v → int_of v ≡ pos n → to_uint64 v ≡ n
  unfolding to_uint64 fits_unsigned signed_limb
  to_uint64-exact (fixnum w) h e = ground (arith, fixnum_natural w n h e)
  to_uint64-exact (bignum b) h e =
      let (sign, same) = data_word-exact b n h fits e in rw (sign, same) refl

module _ (n : ℕ) (fits : n < 2 ^ 32) where
  pub to_int-exact :
      (v : Value) → IsInteger v → int_of v ≡ signed_value 32 n → to_int (integer v) ≡ n
  unfolding to_int
  to_int-exact (fixnum w) h e = (fixnum_int32 w n h fits e).0
  to_int-exact (bignum b) h e = absurd (not_narrow b 32 n h (omega arith) fits e)

  pub to_sint32-exact : (v : Value) → IsInteger v → int_of v ≡ signed_value 32 n → to_sint32 v ≡ n
  unfolding to_sint32
  to_sint32-exact (fixnum w) h e =
      let (same, inside) = fixnum_int32 w n h fits e in rw (inside, same) refl
  to_sint32-exact (bignum b) h e = absurd (not_narrow b 32 n h (omega arith) fits e)

  pub to_uint-exact : (v : Value) → IsInteger v → int_of v ≡ pos n → to_uint (integer v) ≡ some n
  unfolding to_uint low
  to_uint-exact (fixnum w) h e = ap some (omega (arith, fixnum_natural w n h e))
  to_uint-exact (bignum b) h e = absurd (not_narrow_natural b n h fits e)

  pub to_uint32-exact : (v : Value) → IsInteger v → int_of v ≡ pos n → to_uint32 v ≡ n
  unfolding to_uint32 fits_unsigned low
  to_uint32-exact (fixnum w) h e = ground (arith, fixnum_natural w n h e)
  to_uint32-exact (bignum b) h e = absurd (not_narrow_natural b n h fits e)

pub to_sint16-exact :
    (n : ℕ)
    → n < 2 ^ 16
    → (v : Value) → IsInteger v
    → int_of v ≡ signed_value 16 n
    → to_sint16 v ≡ some n
unfolding to_sint16
to_sint16-exact n fits (fixnum w) h e =
    let (same, inside) = fixnum_int16 w n h fits e in rw (inside, same) refl
to_sint16-exact n fits (bignum b) h e = absurd (not_narrow b 16 n h (omega arith) fits e)

pub to_sint8-exact :
    (n : ℕ)
    → n < 2 ^ 8
    → (v : Value) → IsInteger v
    → int_of v ≡ signed_value 8 n
    → to_sint8 v ≡ some n
unfolding to_sint8
to_sint8-exact n fits (fixnum w) h e =
    let (same, inside) = fixnum_int8 w n h fits e in rw (inside, same) refl
to_sint8-exact n fits (bignum b) h e = absurd (not_narrow b 8 n h (omega arith) fits e)

pub to_uint16-exact :
    (n : ℕ) → n < 2 ^ 16 → (v : Value) → IsInteger v → int_of v ≡ pos n → to_uint16 v ≡ some n
unfolding to_uint16 fits_unsigned low
to_uint16-exact n fits (fixnum w) h e = ground (arith, fixnum_natural w n h e)
to_uint16-exact n fits (bignum b) h e = absurd (not_narrow_natural b n h (omega arith) e)

pub to_uint8-exact :
    (n : ℕ) → n < 2 ^ 8 → (v : Value) → IsInteger v → int_of v ≡ pos n → to_uint8 v ≡ some n
unfolding to_uint8 fits_unsigned low
to_uint8-exact n fits (fixnum w) h e = ground (arith, fixnum_natural w n h e)
to_uint8-exact n fits (bignum b) h e = absurd (not_narrow_natural b n h (omega arith) e)
