-- ===== src/Numerics/Subtraction/Bignums.antt =====
-- The difference of two bignums.
use vicare_scheme.Base.{
  ◌+◌, ◌^◌, ◌<◌, ◌≤◌, ◌≡◌, refl, sym, ◌∙◌, inl, inr, Bool, true, false, not, arith, leb, ◌==◌,
  ==_iff, ==_refl, leb_refl, Bool-cases, take, ◌⊎◌,
}
use native.Mathlib.Nat.{le_refl, add_comm}
use vicare_scheme.Base.Int.{◌-ℤ◌, -ℤ_signed, -ℤ_self, signed, signed-+ℤ_same}
use vicare_scheme.Numerics.Limbs.{weight, val}
use vicare_scheme.Numerics.Mpn.{Mpn, Fresh}
use vicare_scheme.Numerics.Bignum.{
  Block, IsBignum, Computes, count_of, magnitude, negative_bit, block_int,
}
use vicare_scheme.Numerics.Difference.{differing, differing-Compared}
use vicare_scheme.Numerics.Opposite.{
  lt_of_count, equal_counts-Computes, take_from_first, take_from_second,
}
use vicare_scheme.Numerics.Addition.{add_magnitudes, same_sign, second_greater}
use vicare_scheme.Numerics.Addition.Carry.{add_long-Computes, add_short-Computes, add_short_wrong}
use vicare_scheme.Numerics.Addition.Bignums.{CarryFits, same_sign-eq, same_sign-ne}
use vicare_scheme.Numerics.Words.{fixnum_int}
use vicare_scheme.Numerics.Subtraction.{sub_same_sign, bnbnminus}

not-not : (b : Bool) → not (not b) ≡ b
not-not true = refl
not-not false = refl

same_sign_opposite : (s t : Bool) → s ≡ not t → same_sign s t ≡ false
unfolding same_sign
same_sign_opposite s true e = rw e
same_sign_opposite s false e = rw e

module _ (gmp : Mpn) (x y : Block) (hx : IsBignum x) (hy : IsBignum y)
    (signs : negative_bit x.first ≡ negative_bit y.first) where
  opposite : negative_bit x.first ≡ not (not (negative_bit y.first))
  opposite = signs ∙ sym (not-not (negative_bit y.first))

  sub_same_sign-Computes : Computes (block_int x -ℤ block_int y) (sub_same_sign gmp x y)
  unfolding sub_same_sign second_greater
  sub_same_sign-Computes =
      let sx = negative_bit x.first in
      let sy = negative_bit y.first in
      rw (-ℤ_signed (block_int x) sy (magnitude y)) (elim (Bool-cases (count_of x == count_of y)) [
        | inr other ↦ rw other (elim (Bool-cases (leb (count_of x) (count_of y))) [
          | inl shorter ↦
              let lt : count_of x < count_of y = ground arith in
              let lower = lt_of_count hx hy lt in
              rw (shorter, other)
                (take_from_second gmp hx hy sx (not sy) opposite (count_of y) (count_of x)
                  (omega arith) (omega arith) hx.count_pos (omega arith) (omega (arith, lower))
                  (omega (arith, lower)))
          | inr longer ↦
              let lt : count_of y < count_of x = ground arith in
              let lower = lt_of_count hy hx lt in
              rw longer (
                take_from_first gmp hx hy sx (not sy) opposite (count_of x) (count_of y)
                  (omega arith) (omega arith) hy.count_pos (omega arith) (omega (arith, lower))
                  (omega (arith, lower)))
        ])
        | inl same ↦
            let e : count_of x ≡ count_of y = (==_iff _ _).0 same in
            let n = differing (count_of x) x.limbs y.limbs in
            let c =
              differing-Compared (count_of x) x.limbs y.limbs hx.held (omega (arith, e, hy.held))
                hx.words hy.words in
            let my : val (take (count_of x) y.limbs) ≡ magnitude y = rw e in
            let number : val (take n x.limbs) + magnitude y ≡ magnitude x + val (take n y.limbs) =
              omega (arith, my, c.same) in
            let result =
              equal_counts-Computes gmp hx hy sx (not sy) opposite n n n e c (le_refl n) (le_refl n)
                c.kept number in
            rw (same, leb_refl n, ==_refl n) result
      ])

module _ (gmp : Mpn) (fresh : Fresh) (x y : Block) (hx : IsBignum x) (hy : IsBignum y)
    (rx : count_of x + 1 < 2 ^ 60) (ry : count_of y + 1 < 2 ^ 60) where
  add_signs :
      negative_bit x.first ≡ not (negative_bit y.first)
      → block_int x -ℤ block_int y ≡ signed (negative_bit x.first) (magnitude x + magnitude y)
  add_signs signs =
      -ℤ_signed (block_int x) (negative_bit y.first) (magnitude y)
      ∙ rw (← signs, signed-+ℤ_same, add_comm (magnitude y) (magnitude x))

  other_signs :
      negative_bit x.first ≡ not (negative_bit y.first)
      → CarryFits x y
      → Computes
          (block_int x -ℤ block_int y)
          (add_magnitudes gmp fresh (leb (count_of y) (count_of x)) x y)
  other_signs signs fits = rw (add_signs signs) (elim (Bool-cases (leb (count_of y) (count_of x))) [
    | inl longer ↦ rw longer (add_long-Computes gmp fresh x y hx hy (ground arith) rx)
    | inr shorter ↦
        let stored : (count_of x ≡ count_of y) ⊎ (magnitude x + magnitude y < weight (count_of y)) =
          elim fits [ inl le ↦ absurd (ground arith) | inr low ↦ inr low ] in
        rw shorter (add_short-Computes gmp fresh x y hx hy (ground arith) ry stored)
  ])

  -- For every GMP and every content of fresh memory, `bnbnminus` of two well-formed bignums of less
  -- than 2 ^ 60 - 1 limbs, told that they are one object only where they are equal, returns a well-
  -- formed integer, their difference, and does not end the process, provided that, where the signs
  -- differ, the second operand is not the longer one or the sum of the magnitudes fits the limbs of
  -- the second operand.
  pub bnbnminus-Computes :
      (same : Bool)
      → (same ≡ true → x ≡ y)
      → (negative_bit x.first ≡ not (negative_bit y.first) → CarryFits x y)
      → Computes (block_int x -ℤ block_int y) (bnbnminus gmp fresh same x y)
  unfolding bnbnminus fixnum_int
  bnbnminus-Computes true one fits = (omega arith, sym (rw (← one refl) (-ℤ_self (block_int x))))
  bnbnminus-Computes false one fits =
      elim (Bool-cases (same_sign (negative_bit x.first) (negative_bit y.first))) [
        | inl agree ↦ rw agree (sub_same_sign-Computes gmp x y hx hy (same_sign-eq _ _ agree))
        | inr other ↦
            let signs = same_sign-ne _ _ other in rw other (other_signs signs (fits signs))
      ]

  -- For every GMP and every content of fresh memory, `bnbnminus` of two well-formed bignums of less
  -- than 2 ^ 60 - 1 limbs, not one object and of opposite signs, where the second has more limbs
  -- and the sum of the magnitudes does not fit them, does not return a well-formed integer that is
  -- the difference.
  pub bnbnminus_carry_lost :
      negative_bit x.first ≡ not (negative_bit y.first)
      → count_of x < count_of y
      → weight (count_of y) ≤ magnitude x + magnitude y
      → ¬ Computes (block_int x -ℤ block_int y) (bnbnminus gmp fresh false x y)
  unfolding bnbnminus
  bnbnminus_carry_lost signs lt carries =
      let shorter : leb (count_of y) (count_of x) ≡ false = ground arith in
      rw (add_signs signs, same_sign_opposite _ _ signs, shorter)
        (add_short_wrong gmp fresh x y hx hy lt ry carries)
