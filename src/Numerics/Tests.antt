-- ===== src/Numerics/Tests.antt =====
-- The theorems on the arithmetic functions at concrete operands.
pub mod Division
use vicare_scheme.Base.{
  ◌+◌, ◌-◌, ◌^◌, ◌<◌, ◌≤◌, ◌≡◌, ℕ, refl, inl, true, false, not, take, List, [], ◌∷◌, arith,
}
use vicare_scheme.Base.Int.{◌+ℤ◌, ◌-ℤ◌, ◌*ℤ◌, signed}
use vicare_scheme.Numerics.Words.{word_base, fix, negate, IsFixnum, fixnum_int, limit}
use vicare_scheme.Numerics.Limbs.{weight, val}
use vicare_scheme.Numerics.Mpn.Reference.{reference, zero_fresh, split, above, to_limbs}
use vicare_scheme.Numerics.Bignum.{
  first_word, Block, IsBignum, Computes, aborted, count_of, magnitude, negative_bit, limb_count,
  block_int, verified,
}
use vicare_scheme.Numerics.Normalize.{normalize, normalize-Computes}
use vicare_scheme.Numerics.Addition.{same_sign, add_magnitudes, fxfxplus, fxbnplus, bnbnplus}
use vicare_scheme.Numerics.Addition.Fixnums.{fxfxplus-Computes, fxbnplus-Computes}
use vicare_scheme.Numerics.Addition.Bignums.{bnbnplus-Computes, bnbnplus_carry_lost}
use vicare_scheme.Numerics.Subtraction.{fxfxminus, fxbnminus, bnfxminus, bnbnminus, bnnegate}
use vicare_scheme.Numerics.Subtraction.Negation.{bnnegate-Computes}
use vicare_scheme.Numerics.Subtraction.Fixnums.{
  fxfxminus-Computes, fxbnminus-Computes, bnfxminus-Computes,
}
use vicare_scheme.Numerics.Subtraction.Bignums.{bnbnminus-Computes, bnbnminus_carry_lost}
use vicare_scheme.Numerics.Product.{fxfxmult, fxbnmult, bnbnmult}
use vicare_scheme.Numerics.Product.Exact.{fxfxmult-Computes, fxbnmult-Computes, bnbnmult-Computes}
use vicare_scheme.Numerics.Fixnums.{fixnums-Computes, mixed_minus-Computes}
use vicare_scheme.Numerics.Comparison.{bnbncomp}
use vicare_scheme.Numerics.Comparison.Order.{bnbncomp-order, by_int_order}

-- Two limbs, and the negative of three limbs that are all ones.
abbrev pub two_limbs : Block
two_limbs = record { first = 35; limbs = 5 ∷ 7 ∷ [] }

abbrev pub minus_ones : Block
minus_ones = record { first = 59; limbs = (word_base - 1) ∷ (word_base - 1) ∷ (word_base - 1) ∷ [] }

-- One limb of ones, and two.
abbrev one_limb_ones : Block
one_limb_ones = record { first = 19; limbs = (word_base - 1) ∷ [] }

abbrev two_limbs_ones : Block
two_limbs_ones = record { first = 35; limbs = (word_base - 1) ∷ (word_base - 1) ∷ [] }

abbrev minus_two_limbs_ones : Block
minus_two_limbs_ones = record { first = 43; limbs = (word_base - 1) ∷ (word_base - 1) ∷ [] }

pub two_limbs-IsBignum : IsBignum two_limbs
unfolding limb_count negative_bit limit
two_limbs-IsBignum = record {
  tagged = refl;
  count_pos = omega arith;
  count_fits = omega arith;
  held = omega arith;
  words = (omega arith, (omega arith, tt));
  last_limb_pos = omega arith;
  large = λ e. omega arith;
}

pub minus_ones-IsBignum : IsBignum minus_ones
unfolding limb_count negative_bit limit
minus_ones-IsBignum = record {
  tagged = refl;
  count_pos = omega arith;
  count_fits = omega arith;
  held = omega arith;
  words = (omega arith, (omega arith, (omega arith, tt)));
  last_limb_pos = omega arith;
  large = λ e. omega arith;
}

one_limb_ones-IsBignum : IsBignum one_limb_ones
unfolding limb_count negative_bit limit
one_limb_ones-IsBignum = record {
  tagged = refl;
  count_pos = omega arith;
  count_fits = omega arith;
  held = omega arith;
  words = (omega arith, tt);
  last_limb_pos = omega arith;
  large = λ e. omega arith;
}

two_limbs_ones-IsBignum : IsBignum two_limbs_ones
unfolding limb_count negative_bit limit
two_limbs_ones-IsBignum = record {
  tagged = refl;
  count_pos = omega arith;
  count_fits = omega arith;
  held = omega arith;
  words = (omega arith, (omega arith, tt));
  last_limb_pos = omega arith;
  large = λ e. omega arith;
}

minus_two_limbs_ones-IsBignum : IsBignum minus_two_limbs_ones
unfolding limb_count negative_bit limit
minus_two_limbs_ones-IsBignum = record {
  tagged = refl;
  count_pos = omega arith;
  count_fits = omega arith;
  held = omega arith;
  words = (omega arith, (omega arith, tt));
  last_limb_pos = omega arith;
  large = λ e. omega arith;
}

-- The fixnum 7, and -7.
pub fix-IsFixnum : IsFixnum (fix 7)
unfolding fix
fix-IsFixnum = record { word = omega arith; tagged = refl }

pub fix_minus-IsFixnum : IsFixnum (fix (negate 7))
unfolding fix negate
fix_minus-IsFixnum = record { word = omega arith; tagged = refl }

two_limbs-room : count_of two_limbs + 1 < 2 ^ 60
unfolding limb_count
two_limbs-room = omega arith

pub minus_ones-room : count_of minus_ones + 1 < 2 ^ 60
unfolding limb_count
minus_ones-room = omega arith

one_limb_ones-room : count_of one_limb_ones + 1 < 2 ^ 60
unfolding limb_count
one_limb_ones-room = omega arith

two_limbs_ones-room : count_of two_limbs_ones + 1 < 2 ^ 60
unfolding limb_count
two_limbs_ones-room = omega arith

minus_two_limbs_ones-room : count_of minus_two_limbs_ones + 1 < 2 ^ 60
unfolding limb_count
minus_two_limbs_ones-room = omega arith

fxbnplus-Computes_example :
    Computes
      (fixnum_int (fix 7) +ℤ block_int minus_ones)
      (fxbnplus reference zero_fresh (fix 7) minus_ones)
fxbnplus-Computes_example =
    fxbnplus-Computes reference zero_fresh (fix 7) minus_ones fix-IsFixnum minus_ones-IsBignum
      minus_ones-room

longer_first : count_of two_limbs_ones ≤ count_of two_limbs
unfolding limb_count
longer_first = omega arith

bnbnplus-Computes_example :
    Computes
      (block_int two_limbs +ℤ block_int two_limbs_ones)
      (bnbnplus reference zero_fresh two_limbs two_limbs_ones)
bnbnplus-Computes_example =
    bnbnplus-Computes reference zero_fresh two_limbs two_limbs_ones two_limbs-IsBignum
      two_limbs_ones-IsBignum two_limbs-room two_limbs_ones-room (λ same. inl longer_first)

both_positive : negative_bit one_limb_ones.first ≡ negative_bit two_limbs_ones.first
unfolding negative_bit
both_positive = refl

one_below_two : count_of one_limb_ones < count_of two_limbs_ones
unfolding limb_count
one_below_two = omega arith

carry : weight (count_of two_limbs_ones) ≤ magnitude one_limb_ones + magnitude two_limbs_ones
unfolding limb_count weight val
carry = omega arith

bnbnplus_carry_lost_example :
    ¬ Computes
      (block_int one_limb_ones +ℤ block_int two_limbs_ones)
      (bnbnplus reference zero_fresh one_limb_ones two_limbs_ones)
bnbnplus_carry_lost_example =
    bnbnplus_carry_lost reference zero_fresh one_limb_ones two_limbs_ones one_limb_ones-IsBignum
      two_limbs_ones-IsBignum one_limb_ones-room two_limbs_ones-room both_positive one_below_two
      carry

bnbnminus-Computes_example :
    Computes
      (block_int two_limbs -ℤ block_int two_limbs_ones)
      (bnbnminus reference zero_fresh false two_limbs two_limbs_ones)
bnbnminus-Computes_example =
    bnbnminus-Computes reference zero_fresh two_limbs two_limbs_ones two_limbs-IsBignum
      two_limbs_ones-IsBignum two_limbs-room two_limbs_ones-room false (λ same. cc)
      (λ other. inl longer_first)

signs_differ : negative_bit one_limb_ones.first ≡ not (negative_bit minus_two_limbs_ones.first)
unfolding negative_bit
signs_differ = refl

one_below_minus_two : count_of one_limb_ones < count_of minus_two_limbs_ones
unfolding limb_count
one_below_minus_two = omega arith

minus_carry :
    weight (count_of minus_two_limbs_ones)
    ≤ magnitude one_limb_ones + magnitude minus_two_limbs_ones
unfolding limb_count weight val
minus_carry = omega arith

bnbnminus_carry_lost_example :
    ¬ Computes
      (block_int one_limb_ones -ℤ block_int minus_two_limbs_ones)
      (bnbnminus reference zero_fresh false one_limb_ones minus_two_limbs_ones)
bnbnminus_carry_lost_example =
    bnbnminus_carry_lost reference zero_fresh one_limb_ones minus_two_limbs_ones
      one_limb_ones-IsBignum minus_two_limbs_ones-IsBignum one_limb_ones-room
      minus_two_limbs_ones-room signs_differ one_below_minus_two minus_carry

bnnegate-Computes_example :
    Computes
      (signed (not (negative_bit minus_ones.first)) (magnitude minus_ones))
      (bnnegate minus_ones)
bnnegate-Computes_example = bnnegate-Computes minus_ones minus_ones-IsBignum

fxbnmult-Computes_example :
    Computes
      (fixnum_int (fix (negate 7)) *ℤ block_int minus_ones)
      (fxbnmult reference (fix (negate 7)) minus_ones)
fxbnmult-Computes_example =
    fxbnmult-Computes reference (fix (negate 7)) minus_ones fix_minus-IsFixnum minus_ones-IsBignum
      minus_ones-room

product_room : count_of two_limbs + count_of minus_ones < 2 ^ 60
unfolding limb_count
product_room = omega arith

bnbnmult-Computes_example :
    Computes (block_int two_limbs *ℤ block_int minus_ones) (bnbnmult reference two_limbs minus_ones)
bnbnmult-Computes_example =
    bnbnmult-Computes reference two_limbs minus_ones two_limbs-IsBignum minus_ones-IsBignum
      product_room

bnbncomp-order_example :
    bnbncomp minus_ones two_limbs
    ≡ by_int_order (block_int minus_ones) (block_int two_limbs) (fix (negate 1)) (fix 1)
bnbncomp-order_example = bnbncomp-order minus_ones two_limbs minus_ones-IsBignum two_limbs-IsBignum

abbrev high_zeros : List ℕ
high_zeros = 5 ∷ 7 ∷ 0 ∷ 0 ∷ []

normalize-Computes_example :
    Computes (signed true (val (take 4 high_zeros))) (normalize 4 true high_zeros)
normalize-Computes_example =
    normalize-Computes 4 true high_zeros (omega arith) (omega arith)
      (omega arith, (omega arith, (omega arith, (omega arith, tt))))

-- Into zeroed memory the carry is lost where the top limb should be, and the process ends.
one_plus_ones : bnbnplus reference zero_fresh one_limb_ones two_limbs_ones ≡ aborted
unfolding bnbnplus same_sign negative_bit add_magnitudes split above limb_count val verified
    first_word to_limbs
one_plus_ones = refl

fixnums-Computes_example :
    Computes (fixnum_int (fix 7) +ℤ fixnum_int (fix (negate 7))) (fxfxplus (fix 7) (fix (negate 7)))
    × Computes
        (fixnum_int (fix 7) -ℤ fixnum_int (fix (negate 7)))
        (fxfxminus (fix 7) (fix (negate 7)))
    × Computes
        (fixnum_int (fix 7) *ℤ fixnum_int (fix (negate 7)))
        (fxfxmult reference (fix 7) (fix (negate 7)))
fixnums-Computes_example =
    fixnums-Computes reference (fix 7) (fix (negate 7)) fix-IsFixnum fix_minus-IsFixnum

mixed_minus-Computes_example :
    Computes
      (fixnum_int (fix 7) -ℤ block_int minus_ones)
      (fxbnminus reference zero_fresh (fix 7) minus_ones)
    × Computes
        (block_int minus_ones -ℤ fixnum_int (fix 7))
        (bnfxminus reference zero_fresh minus_ones (fix 7))
mixed_minus-Computes_example =
    mixed_minus-Computes reference zero_fresh (fix 7) minus_ones fix-IsFixnum minus_ones-IsBignum
      minus_ones-room
