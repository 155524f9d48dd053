-- ===== src/Numerics/Tests/Division.antt =====
-- The theorems on division, shifts and complement at concrete operands.
use vicare_scheme.Base.{ℕ, ◌+◌, ◌-◌, ◌*◌, ◌/◌, ◌<◌, ◌^◌, arith, true, false}
use vicare_scheme.Base.Int.{◌-ℤ◌, signed}
use vicare_scheme.Numerics.Words.{fix, negate, unfix, is_negative, magnitude_word}
use vicare_scheme.Numerics.Bignum.{
  Computes, count_of, limb_count, magnitude, negative_bit, block_int,
}
use vicare_scheme.Numerics.Complement.{bnlognot}
use vicare_scheme.Numerics.Complement.Exact.{bnlognot-Computes}
use vicare_scheme.Numerics.Division.{bnbndivrem, bnfxdivrem}
use vicare_scheme.Numerics.Division.Exact.{Truncates, bnbndivrem-Truncates, bnfxdivrem-Truncates}
use vicare_scheme.Numerics.Division.Reference.{division, remainder}
use vicare_scheme.Numerics.Modulo.{bnfx_modulo, IsModulo}
use vicare_scheme.Numerics.Modulo.Floor.{bnfx_modulo-IsModulo}
use vicare_scheme.Numerics.Shifts.{bignum_shift_left, fixnum_shift_left}
use vicare_scheme.Numerics.Shifts.Left.{shift_left-Computes}
use vicare_scheme.Base.{[], ◌∷◌, ◌≡◌, refl}
use vicare_scheme.Base.Int.{pos}
use vicare_scheme.Numerics.Words.{most_positive_fixnum}
use vicare_scheme.Numerics.Bignum.{Block, int_of, IsInteger}
use vicare_scheme.Numerics.Conjunction.{and_limb, bnbnlogand_positive, bnbnlogand_not_normal}
use vicare_scheme.Numerics.Tests.{
  two_limbs, minus_ones, two_limbs-IsBignum, minus_ones-IsBignum, fix_minus-IsFixnum,
}

bnbndivrem-Truncates_example :
    Truncates
      (negative_bit minus_ones.first)
      (magnitude minus_ones)
      (negative_bit two_limbs.first)
      (magnitude two_limbs)
      (bnbndivrem division minus_ones two_limbs)
bnbndivrem-Truncates_example =
    bnbndivrem-Truncates division minus_ones two_limbs minus_ones-IsBignum two_limbs-IsBignum

minus_seven-nonzero : 0 < magnitude_word (unfix (fix (negate 7)))
unfolding magnitude_word unfix fix negate is_negative
minus_seven-nonzero = omega arith

bnfxdivrem-Truncates_example :
    Truncates
      (negative_bit two_limbs.first)
      (magnitude two_limbs)
      (is_negative (unfix (fix (negate 7))))
      (magnitude_word (unfix (fix (negate 7))))
      (bnfxdivrem division two_limbs (fix (negate 7)))
bnfxdivrem-Truncates_example =
    bnfxdivrem-Truncates division two_limbs (fix (negate 7)) two_limbs-IsBignum fix_minus-IsFixnum
      minus_seven-nonzero

bnfx_modulo-IsModulo_example :
    IsModulo
      (negative_bit two_limbs.first)
      (magnitude two_limbs)
      (is_negative (unfix (fix (negate 7))))
      (magnitude_word (unfix (fix (negate 7))))
      (bnfx_modulo remainder two_limbs (fix (negate 7)))
bnfx_modulo-IsModulo_example =
    bnfx_modulo-IsModulo remainder two_limbs (fix (negate 7)) two_limbs-IsBignum fix_minus-IsFixnum
      minus_seven-nonzero

minus_ones-counted : count_of minus_ones < 2 ^ 31
unfolding limb_count
minus_ones-counted = omega arith

bnlognot-Computes_example : Computes (signed true 1 -ℤ block_int minus_ones) (bnlognot minus_ones)
bnlognot-Computes_example = bnlognot-Computes minus_ones minus_ones-IsBignum minus_ones-counted

abbrev seventy : ℕ
seventy = fix 70

seventy-forward : is_negative (unfix seventy) ≡ false
unfolding is_negative unfix fix
seventy-forward = refl

two_limbs-counted : count_of two_limbs < 2 ^ 31
unfolding limb_count
two_limbs-counted = omega arith

seventy-room : count_of two_limbs + 2 + unfix seventy / 64 < 2 ^ 60
unfolding limb_count unfix fix
seventy-room = omega arith

shift_left-Computes_example :
    Computes
      (signed (negative_bit two_limbs.first) (magnitude two_limbs * 2 ^ unfix seventy))
      (bignum_shift_left two_limbs seventy)
    × Computes
        (signed
          (is_negative (unfix (fix (negate 7))))
          (magnitude_word (unfix (fix (negate 7))) * 2 ^ unfix seventy))
        (fixnum_shift_left (fix (negate 7)) seventy)
shift_left-Computes_example =
    shift_left-Computes two_limbs (fix (negate 7)) seventy two_limbs-IsBignum fix_minus-IsFixnum
      seventy-forward two_limbs-counted seventy-room

-- 2 ^ 61 - 1 and 2 ^ 62 + 2 ^ 60 - 1.
abbrev low_bits : Block
low_bits = record { first = 19; limbs = (2 ^ 61 - 1) ∷ [] }

abbrev mixed_bits : Block
mixed_bits = record { first = 19; limbs = (2 ^ 62 + 2 ^ 60 - 1) ∷ [] }

bnbnlogand_not_normal_example :
    (int_of (bnbnlogand_positive low_bits mixed_bits) ≡ pos most_positive_fixnum)
    × (¬ IsInteger (bnbnlogand_positive low_bits mixed_bits))
unfolding and_limb limb_count
bnbnlogand_not_normal_example =
    bnbnlogand_not_normal low_bits mixed_bits (omega arith) (omega arith) (omega arith) refl
      (λ i lo hi. absurd (omega arith))
