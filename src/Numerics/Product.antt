-- ===== src/Numerics/Product.antt =====
-- `ikrt_fxfxmult`, `ikrt_fxbnmult` and `ikrt_bnbnmult` of src/ikarus-numerics.c.
pub mod Exact
use vicare_scheme.Base.{
  ℕ, ◌+◌, ◌≡◌, Bool, true, false, not, List, [], ◌∷◌, ◌++◌, leb, ◌==◌, if◌then◌else◌, get_or,
}
use vicare_scheme.Numerics.Words.{unfix, is_negative, negate, magnitude_word}
use vicare_scheme.Numerics.Mpn.{Mpn}
use vicare_scheme.Numerics.Bignum.{
  Block, fixnum, Outcome, returned, verified, first_word, count_of, digits_of, negative_bit,
}
use vicare_scheme.Numerics.Normalize.{make_integer, normalize}
use vicare_scheme.Numerics.Addition.{is_positive, same_sign}

-- The sign is flipped once for each negative operand.
unfoldable pub product_sign : Bool → Bool → Bool
unfolding same_sign
product_sign s t = not (same_sign s t)

module _ (gmp : Mpn) where
  unfoldable pub fxfxmult : ℕ → ℕ → Outcome
  fxfxmult x y =
      let n₁ = unfix x in
      let n₂ = unfix y in
      let sign = product_sign (is_negative n₁) (is_negative n₂) in
      let (lo, hi) = gmp.mul_1 (magnitude_word n₁ ∷ []) (magnitude_word n₂) in
      if hi == 0
      then make_integer sign 1 lo
      else verified (record { first = first_word 2 sign; limbs = lo ++ hi ∷ [] })

  unfoldable pub fxbnmult : ℕ → Block → Outcome
  fxbnmult x y =
      let n₂ = unfix x in
      if n₂ == 0
      then returned (fixnum 0)
      else let s₂ = if is_positive n₂ then n₂ else negate n₂ in
        let (low, hi) = gmp.mul_1 (digits_of y) s₂ in
        let sign = if is_positive n₂ then negative_bit y.first else not (negative_bit y.first) in
        normalize (count_of y + 1) sign (low ++ hi ∷ [])

  unfoldable pub bnbnmult : Block → Block → Outcome
  bnbnmult x y =
      let n₁ = count_of x in
      let n₂ = count_of y in
      let product =
        if leb n₂ n₁
        then gmp.mul (digits_of x) (digits_of y)
        else gmp.mul (digits_of y) (digits_of x) in
      let sign =
        if negative_bit x.first then not (negative_bit y.first) else negative_bit y.first in
      normalize (n₁ + n₂) sign product
