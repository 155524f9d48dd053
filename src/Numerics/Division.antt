-- ===== src/Numerics/Division.antt =====
-- `ikrt_bnbndivrem` and `ikrt_bnfxdivrem` of src/ikarus-numerics.c.
pub mod Exact
pub mod Reference
use vicare_scheme.Base.{
  ℕ, ◌+◌, ◌-◌, ◌*◌, ◌%◌, ◌<◌, ◌≤◌, ◌≡◌, Bool, true, false, not, Option, none, some, List, [], ◌∷◌,
  ltb, if◌then◌else◌, length, replicate, get_or,
}
use vicare_scheme.Numerics.Words.{word_base, fix, unfix, negate, is_negative, magnitude_word}
use vicare_scheme.Numerics.Limbs.{IsLimbs, val}
use vicare_scheme.Numerics.Bignum.{
  Block, Value, fixnum, bignum, Outcome, returned, aborted, count_of, digits_of, negative_bit,
}
use vicare_scheme.Numerics.Normalize.{normalize}

-- What GMP's manual says of `mpn_tdiv_qr`: the quotient has `nn - dn + 1` limbs, the remainder `dn`.
pub record Divides (xs ys : List ℕ) (out : List ℕ × List ℕ) : Type 0 where
  pub quotient_width : length out.0 ≡ length xs - length ys + 1
  pub remainder_width : length out.1 ≡ length ys
  pub quotient_words : IsLimbs out.0
  pub remainder_words : IsLimbs out.1
  pub total : val out.0 * val ys + val out.1 ≡ val xs
  pub small : val out.1 < val ys

-- What it says of `mpn_divrem_1` without fraction limbs.
pub record DividesBy (xs : List ℕ) (c : ℕ) (out : List ℕ × ℕ) : Type 0 where
  pub width : length out.0 ≡ length xs
  pub words : IsLimbs out.0
  pub total : val out.0 * c + out.1 ≡ val xs
  pub small : out.1 < c

pub record Division : Type 0 where
  pub tdiv_qr : List ℕ → List ℕ → List ℕ × List ℕ
  pub divrem_1 : List ℕ → ℕ → List ℕ × ℕ
  pub tdiv_qr-Divides :
      (xs ys : List ℕ)
      → IsLimbs xs
      → IsLimbs ys
      → length ys ≤ length xs
      → 0 < get_or ys (length ys - 1) 0
      → Divides xs ys (tdiv_qr xs ys)
  pub divrem_1-DividesBy :
      (xs : List ℕ) (c : ℕ) → IsLimbs xs → 0 < c → c < word_base → DividesBy xs c (divrem_1 xs c)

-- A pair of the quotient and the remainder, where neither ends the process.
unfoldable pub pair : Outcome → Outcome → Option (Value × Value)
pair (returned q) (returned r) = some (q, r)
pair (returned q) aborted = none
pair aborted r = none

module _ (gmp : Division) where
  unfoldable pub bnbndivrem : Block → Block → Option (Value × Value)
  unfolding pair
  bnbndivrem x y =
      if ltb (count_of x) (count_of y)
      then some (fixnum 0, bignum x)
      else let (q, r) = gmp.tdiv_qr (digits_of x) (digits_of y) in
        let sign =
          if negative_bit y.first then not (negative_bit x.first) else negative_bit x.first in
        pair (normalize (count_of x - count_of y + 1) sign q)
          (normalize (count_of y) (negative_bit x.first) r)

  unfoldable pub bnfxdivrem : Block → ℕ → Option (Value × Value)
  unfolding pair
  bnfxdivrem x y =
      let yint = unfix y in
      let (quot, rv) = gmp.divrem_1 (digits_of x) (magnitude_word yint) in
      let sign = if is_negative yint then not (negative_bit x.first) else negative_bit x.first in
      let rem = if negative_bit x.first then negate (fix rv) else fix rv in
      pair (normalize (count_of x) sign quot) (returned (fixnum rem))
