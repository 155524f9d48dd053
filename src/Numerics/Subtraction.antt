-- ===== src/Numerics/Subtraction.antt =====
-- `ikrt_fxfxminus`, `ikrt_fxbnminus`, `ikrt_bnfxminus`, `ikrt_bnbnminus` and `ikrt_bnnegate` of
-- src/ikarus-numerics.c.
pub mod Negation
pub mod Fixnums
pub mod Bignums
use vicare_scheme.Base.{
  ℕ, ◌+◌, ◌-◌, ◌≡◌, Bool, true, false, not, ◌&&◌, List, [], ◌∷◌, ltb, leb, ◌==◌, if◌then◌else◌,
  get_or, take,
}
use vicare_scheme.Numerics.Words.{fix, unfix, sub_words, negate, is_negative, most_positive_fixnum}
use vicare_scheme.Numerics.Mpn.{Mpn, Fresh}
use vicare_scheme.Numerics.Bignum.{
  Block, Value, fixnum, bignum, Outcome, returned, verified, first_word, count_of, digits_of,
  negative_bit,
}
use vicare_scheme.Numerics.Sum.{add_limb, sub_limb}
use vicare_scheme.Numerics.Difference.{differing, sub_magnitudes}
use vicare_scheme.Numerics.Addition.{is_positive, same_sign, add_magnitudes, second_greater}

unfoldable pub fxfxminus : ℕ → ℕ → Outcome
fxfxminus x y =
    let r = sub_words (unfix x) (unfix y) in
    if is_negative r
    then (if unfix (fix r) == r
        then returned (fixnum (fix r))
        else verified (record { first = first_word 1 true; limbs = negate r ∷ [] }))
    else if leb r most_positive_fixnum
    then returned (fixnum (fix r))
    else verified (record { first = first_word 1 false; limbs = r ∷ [] })

-- A positive bignum one above the greatest fixnum is the least fixnum, negated.
unfoldable pub negates_to_fixnum : Block → Bool
negates_to_fixnum x =
    count_of x == 1
    && (not (negative_bit x.first) && get_or x.limbs 0 0 == most_positive_fixnum + 1)

unfoldable pub bnnegate : Block → Outcome
bnnegate x =
    if negates_to_fixnum x
    then returned (fixnum (fix (negate (get_or x.limbs 0 0))))
    else verified (record {
      first = first_word (count_of x) (not (negative_bit x.first));
      limbs = digits_of x;
    })

-- The same-sign branch of `ikrt_bnbnminus`.
unfoldable pub sub_same_sign : Mpn → Block → Block → Outcome
sub_same_sign gmp x y =
    let equal = count_of x == count_of y in
    let left = differing (count_of x) x.limbs y.limbs in
    let xlimbs = if equal then left else count_of x in
    let ylimbs = if equal then left else count_of y in
    if equal && left == 0
    then returned (fixnum 0)
    else if second_greater xlimbs ylimbs x.limbs y.limbs
    then sub_magnitudes gmp (not (negative_bit y.first)) ylimbs y.limbs xlimbs x.limbs
    else sub_magnitudes gmp (negative_bit x.first) xlimbs x.limbs ylimbs y.limbs

module _ (gmp : Mpn) (fresh : Fresh) where
  unfoldable pub fxbnminus : ℕ → Block → Outcome
  fxbnminus x y =
      let intx = unfix x in
      if x == 0
      then bnnegate y
      else if is_positive intx
      then (if negative_bit y.first
          then add_limb gmp fresh false y intx
          else sub_limb gmp fresh true y intx)
      else (if negative_bit y.first
          then sub_limb gmp fresh false y (negate intx)
          else add_limb gmp fresh true y (negate intx))

  unfoldable pub bnfxminus : Block → ℕ → Outcome
  bnfxminus x y =
      let inty = unfix y in
      if y == 0
      then returned (bignum x)
      else if is_negative inty
      then (if negative_bit x.first
          then sub_limb gmp fresh true x (negate inty)
          else add_limb gmp fresh false x (negate inty))
      else (if negative_bit x.first
          then add_limb gmp fresh true x inty
          else sub_limb gmp fresh false x inty)

  -- `same` says that the operands are one object.
  unfoldable pub bnbnminus : Bool → Block → Block → Outcome
  bnbnminus same x y =
      if same
      then returned (fixnum 0)
      else if same_sign (negative_bit x.first) (negative_bit y.first)
      then sub_same_sign gmp x y
      else add_magnitudes gmp fresh (leb (count_of y) (count_of x)) x y
