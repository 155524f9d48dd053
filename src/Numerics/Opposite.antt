-- ===== src/Numerics/Opposite.antt =====
-- The sum of two magnitudes of different signs, by which of them is the greater.
use vicare_scheme.Base.{
  ℕ, ◌+◌, ◌-◌, ◌<◌, ◌≤◌, ◌≡◌, ◌∙◌, inl, inr, Bool, not, arith, ltb, ◌==◌, ==_iff, Bool-cases,
  if◌then◌else◌, get_or, take,
}
use vicare_scheme.Base.Int.{◌+ℤ◌, signed, signed-+ℤ_first, signed-+ℤ_second}
use vicare_scheme.Numerics.Limbs.{val, weight_le}
use vicare_scheme.Numerics.Mpn.{Mpn}
use vicare_scheme.Numerics.Bignum.{Block, IsBignum, Computes, count_of, magnitude, fixnum, returned}
use vicare_scheme.Numerics.Normalize.{zero-Computes}
use vicare_scheme.Numerics.Magnitude.{IsBignum-Bounds}
use vicare_scheme.Numerics.Difference.{Compared, sub_magnitudes, sub_magnitudes-Computes}

-- A bignum with fewer limbs has the lesser magnitude.
pub lt_of_count :
    {x y : Block} → IsBignum x → IsBignum y → count_of x < count_of y → magnitude x < magnitude y
lt_of_count {x} {y} hx hy lt = omega (
  arith,
  (IsBignum-Bounds hx).upper,
  (IsBignum-Bounds hy).lower,
  weight_le (count_of x) (count_of y - 1) (omega arith),
)

-- The limbs passed differ by as much as the whole magnitudes.
module _ (gmp : Mpn) {x y : Block} (hx : IsBignum x) (hy : IsBignum y) (s t : Bool)
    (signs : s ≡ not t) where
  pub take_from_second :
      (n₁ n₂ : ℕ)
      → n₁ ≤ count_of y
      → n₂ ≤ count_of x
      → 0 < n₂
      → n₂ ≤ n₁
      → magnitude x ≤ magnitude y
      → val (take n₁ y.limbs) ≡ magnitude y - magnitude x + val (take n₂ x.limbs)
      → Computes
          (signed s (magnitude x) +ℤ signed t (magnitude y))
          (sub_magnitudes gmp t n₁ y.limbs n₂ x.limbs)
  take_from_second n₁ n₂ p q pos le lower e =
      rw (signed-+ℤ_second s t (magnitude x) (magnitude y) signs lower) (
        sub_magnitudes-Computes gmp t n₁ y.limbs n₂ x.limbs _ hy.words hx.words
          (omega (arith, hy.held)) (omega (arith, hx.held)) pos le (omega (arith, hy.count_fits)) e)

  pub take_from_first :
      (n₁ n₂ : ℕ)
      → n₁ ≤ count_of x
      → n₂ ≤ count_of y
      → 0 < n₂
      → n₂ ≤ n₁
      → magnitude y ≤ magnitude x
      → val (take n₁ x.limbs) ≡ magnitude x - magnitude y + val (take n₂ y.limbs)
      → Computes
          (signed s (magnitude x) +ℤ signed t (magnitude y))
          (sub_magnitudes gmp s n₁ x.limbs n₂ y.limbs)
  take_from_first n₁ n₂ p q pos le lower e =
      rw (signed-+ℤ_first s t (magnitude x) (magnitude y) signs lower) (
        sub_magnitudes-Computes gmp s n₁ x.limbs n₂ y.limbs _ hx.words hy.words
          (omega (arith, hx.held)) (omega (arith, hy.held)) pos le (omega (arith, hx.count_fits)) e)

  -- Operands of as many limbs, `n` of which are left below the equal ones at the top. `m₁` and `m₂`
  -- limbs are taken where the first operand is the greater.
  pub equal_counts-Computes :
      (n m₁ m₂ : ℕ)
      → count_of x ≡ count_of y
      → Compared (count_of x) x.limbs y.limbs n
      → n ≤ m₂
      → m₂ ≤ m₁
      → m₁ ≤ count_of x
      → val (take m₁ x.limbs) + magnitude y ≡ magnitude x + val (take m₂ y.limbs)
      → Computes (signed s (magnitude x) +ℤ signed t (magnitude y)) (
          if n == 0
          then returned (fixnum 0)
          else if ltb (get_or x.limbs (n - 1) 0) (get_or y.limbs (n - 1) 0)
          then sub_magnitudes gmp t n y.limbs n x.limbs
          else sub_magnitudes gmp s m₁ x.limbs m₂ y.limbs)
  equal_counts-Computes n m₁ m₂ e c p q r number =
      let my : val (take (count_of x) y.limbs) ≡ magnitude y = rw e in
      elim (Bool-cases (n == 0)) [
        | inl none_left ↦
            let equal = c.equal ((==_iff n 0).0 none_left) ∙ my in
            rw
              (
                none_left,
                signed-+ℤ_first s t (magnitude x) (magnitude y) signs (omega (arith, equal)),
              )
              (zero-Computes s _ (omega (arith, equal)))
        | inr left ↦
            let pos : 0 < n = ground arith in
            rw left (elim (Bool-cases (ltb (get_or x.limbs (n - 1) 0) (get_or y.limbs (n - 1) 0))) [
              | inl less ↦
                  let lower = c.less pos (ground arith) in
                  rw less (
                    take_from_second n n (omega (arith, c.kept, e)) c.kept pos (omega arith)
                      (omega (arith, lower, my)) (omega (arith, lower, my, c.same)))
              | inr more ↦
                  let lower = c.greater pos more in
                  rw more (
                    take_from_first m₁ m₂ r (omega (arith, e)) (omega arith) q
                      (omega (arith, lower, my)) (omega (arith, number, lower, my)))
            ])
      ]
