-- ===== src/Numerics/Addition/Bignums.antt =====
-- The sum of two bignums.
use vicare_scheme.Base.{
  ◌+◌, ◌^◌, ◌<◌, ◌≤◌, ◌≡◌, refl, sym, inl, inr, Bool, true, false, not, arith, ltb, leb, ◌==◌,
  ==_iff, ==_refl, leb_refl, Bool-cases, take, ◌⊎◌,
}
use native.Mathlib.Nat.{add_comm, le_refl, le_of_eq}
use vicare_scheme.Base.Int.{◌+ℤ◌, signed-+ℤ_same}
use vicare_scheme.Numerics.Limbs.{weight, val}
use vicare_scheme.Numerics.Mpn.{Mpn, Fresh}
use vicare_scheme.Numerics.Bignum.{
  Block, IsBignum, Computes, count_of, magnitude, negative_bit, block_int,
}
use vicare_scheme.Numerics.Difference.{differing, differing-Compared}
use vicare_scheme.Numerics.Opposite.{
  lt_of_count, equal_counts-Computes, take_from_first, take_from_second,
}
use vicare_scheme.Numerics.Addition.{
  add_magnitudes, sub_blocks, bnbnplus, same_sign, second_greater,
}
use vicare_scheme.Numerics.Addition.Carry.{add_long-Computes, add_short-Computes, add_short_wrong}

module _ (gmp : Mpn) (x y : Block) (hx : IsBignum x) (hy : IsBignum y)
    (signs : negative_bit x.first ≡ not (negative_bit y.first)) where
  pub sub_blocks-Computes : Computes (block_int x +ℤ block_int y) (sub_blocks gmp x y)
  unfolding sub_blocks second_greater
  sub_blocks-Computes = elim (Bool-cases (count_of x == count_of y)) [
    | inr other ↦ rw other (elim (Bool-cases (leb (count_of x) (count_of y))) [
      | inl shorter ↦
          let lt : count_of x < count_of y = ground arith in
          let lower = lt_of_count hx hy lt in
          rw (shorter, other)
            (take_from_second gmp hx hy (negative_bit x.first) (negative_bit y.first) signs
              (count_of y) (count_of x) (omega arith) (omega arith) hx.count_pos (omega arith)
              (omega arith) (omega (arith, lower)))
      | inr longer ↦
          let lt : count_of y < count_of x = ground arith in
          let lower = lt_of_count hy hx lt in
          rw longer (
            take_from_first gmp hx hy (negative_bit x.first) (negative_bit y.first) signs
              (count_of x) (count_of y) (omega arith) (omega arith) hy.count_pos (omega arith)
              (omega (arith, lower)) (omega (arith, lower)))
    ])
    | inl same ↦
        let e : count_of x ≡ count_of y = (==_iff _ _).0 same in
        let n = differing (count_of x) x.limbs y.limbs in
        let c =
          differing-Compared (count_of x) x.limbs y.limbs hx.held (omega (arith, e, hy.held))
            hx.words hy.words in
        let kept : n ≤ count_of y = omega (arith, c.kept, e) in
        let number : val (take (count_of x) x.limbs) + magnitude y
            ≡ magnitude x + val (take (count_of y) y.limbs) =
          refl in
        let result =
          equal_counts-Computes gmp hx hy (negative_bit x.first) (negative_bit y.first) signs n
            (count_of x) (count_of y) e c kept (le_of_eq (sym e)) (le_refl (count_of x)) number in
        rw (same, leb_refl n, ==_refl n) result
  ]

pub same_sign-eq : (s t : Bool) → same_sign s t ≡ true → s ≡ t
unfolding same_sign
same_sign-eq true t h = sym h
same_sign-eq false true h = cc
same_sign-eq false false h = refl

pub same_sign-ne : (s t : Bool) → same_sign s t ≡ false → s ≡ not t
unfolding same_sign
same_sign-ne true t h = rw h
same_sign-ne false true h = refl
same_sign-ne false false h = cc

pub same_sign_refl : (s t : Bool) → s ≡ t → same_sign s t ≡ true
unfolding same_sign
same_sign_refl true t h = sym h
same_sign_refl false t h = rw (← h)

-- The condition under which the carry of `ikrt_bnbnplus` is stored rightly: the second operand is
-- not the longer one, or there is no carry.
abbrev pub CarryFits : Block → Block → Type 0
CarryFits x y = (count_of y ≤ count_of x) ⊎ (magnitude x + magnitude y < weight (count_of y))

module _ (gmp : Mpn) (fresh : Fresh) (x y : Block) (hx : IsBignum x) (hy : IsBignum y)
    (rx : count_of x + 1 < 2 ^ 60) (ry : count_of y + 1 < 2 ^ 60) where
  same_signs :
      negative_bit x.first ≡ negative_bit y.first
      → CarryFits x y
      → Computes
          (block_int x +ℤ block_int y)
          (add_magnitudes gmp fresh (ltb (count_of y) (count_of x)) x y)
  same_signs signs fits =
      rw (← signs, signed-+ℤ_same, add_comm (magnitude y) (magnitude x))
        (elim (Bool-cases (ltb (count_of y) (count_of x))) [
          | inl longer ↦ rw longer (add_long-Computes gmp fresh x y hx hy (ground arith) rx)
          | inr shorter ↦
              let stored : (count_of x ≡ count_of y)
                  ⊎ (magnitude x + magnitude y < weight (count_of y)) =
                elim fits [ inl le ↦ inl (ground arith) | inr low ↦ inr low ] in
              rw shorter (add_short-Computes gmp fresh x y hx hy (ground arith) ry stored)
        ])

  -- For every GMP and every content of fresh memory, `bnbnplus` of two well-formed bignums of less
  -- than 2 ^ 60 - 1 limbs returns a well-formed integer, the sum of the two, and does not end the
  -- process, provided that, where the signs agree, the second operand is not the longer one or the
  -- sum of the magnitudes fits the limbs of the second operand.
  pub bnbnplus-Computes :
      (negative_bit x.first ≡ negative_bit y.first → CarryFits x y)
      → Computes (block_int x +ℤ block_int y) (bnbnplus gmp fresh x y)
  unfolding bnbnplus
  bnbnplus-Computes fits =
      elim (Bool-cases (same_sign (negative_bit x.first) (negative_bit y.first))) [
        | inl same ↦ let signs = same_sign-eq _ _ same in rw same (same_signs signs (fits signs))
        | inr other ↦ rw other (sub_blocks-Computes gmp x y hx hy (same_sign-ne _ _ other))
      ]

  -- For every GMP and every content of fresh memory, `bnbnplus` of two well-formed bignums of less
  -- than 2 ^ 60 - 1 limbs and of one sign, where the second has more limbs and the sum of the
  -- magnitudes does not fit them, does not return a well-formed integer that is the sum.
  pub bnbnplus_carry_lost :
      negative_bit x.first ≡ negative_bit y.first
      → count_of x < count_of y
      → weight (count_of y) ≤ magnitude x + magnitude y
      → ¬ Computes (block_int x +ℤ block_int y) (bnbnplus gmp fresh x y)
  unfolding bnbnplus
  bnbnplus_carry_lost signs lt carries =
      let shorter : ltb (count_of y) (count_of x) ≡ false = ground arith in
      rw
        (
          same_sign_refl _ _ signs,
          shorter,
          ← signs,
          signed-+ℤ_same,
          add_comm (magnitude y) (magnitude x),
        )
        (add_short_wrong gmp fresh x y hx hy lt ry carries)
