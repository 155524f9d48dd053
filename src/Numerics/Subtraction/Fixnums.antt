-- ===== src/Numerics/Subtraction/Fixnums.antt =====
-- The differences in which an operand is a fixnum.
use vicare_scheme.Base.{
  ℕ, ◌+◌, ◌^◌, ◌<◌, ◌≤◌, ◌≡◌, inl, inr, Bool, true, false, not, arith, leb, ◌==◌, Bool-cases,
  if◌then◌else◌,
}
use vicare_scheme.Base.Int.{
  ℤ, pos, ◌+ℤ◌, ◌-ℤ◌, -ℤ_signed, signed, signed-+ℤ_other, signed-+ℤ_same, +ℤ_comm, zero-+ℤ,
}
use vicare_scheme.Numerics.Words.{
  word_base, fix, unfix, sub_words, negate, is_negative, IsFixnum, fixnum_int, word_int, limit,
  most_positive_fixnum, limit-le, limit-ge,
}
use vicare_scheme.Numerics.Mpn.{Mpn, Fresh}
use vicare_scheme.Numerics.Bignum.{
  Block, IsBignum, Computes, count_of, magnitude, negative_bit, block_int,
}
use vicare_scheme.Numerics.Magnitude.{IsBignum-Bounds}
use vicare_scheme.Numerics.Sum.{add_limb, sub_limb, add_limb-Computes, sub_limb-Computes}
use vicare_scheme.Numerics.Addition.{is_positive}
use vicare_scheme.Numerics.Addition.Fixnums.{
  one_limb-Computes, fix-IsFixnum, word_int-positive, word_int-negative, overflow_negative,
  positive_fixnum, negative_fixnum, zero_fixnum, kept, not_positive,
}
use vicare_scheme.Numerics.Subtraction.{fxfxminus, fxbnminus, bnfxminus}
use vicare_scheme.Numerics.Subtraction.Negation.{bnnegate-Computes}

word_int-sub_words :
    (x y : ℕ)
    → IsFixnum x
    → IsFixnum y
    → word_int (sub_words (unfix x) (unfix y)) ≡ fixnum_int x -ℤ fixnum_int y
unfolding word_int sub_words fixnum_int ◌-ℤ◌
word_int-sub_words x y hx hy = ground arith

sub_words-lt : (a b : ℕ) → sub_words a b < word_base
unfolding sub_words
sub_words-lt a b = omega arith

small_fits : (r : ℕ) → leb r most_positive_fixnum ≡ true → (r == unfix (fix r)) ≡ true
unfolding unfix fix
small_fits r h = ground arith

==_comm : (a b : ℕ) → (a == b) ≡ (b == a)
==_comm a b = ground arith

above_limit : (r : ℕ) → leb r most_positive_fixnum ≡ false → limit false < r
unfolding limit
above_limit r h = ground arith

-- `fxfxminus` of two fixnums returns a well-formed integer, their difference, and does not end the
-- process.
pub fxfxminus-Computes :
    (x y : ℕ) → IsFixnum x → IsFixnum y → Computes (fixnum_int x -ℤ fixnum_int y) (fxfxminus x y)
unfolding fxfxminus
fxfxminus-Computes x y hx hy =
    let r = sub_words (unfix x) (unfix y) in
    let exact = word_int-sub_words x y hx hy in
    let word = sub_words-lt (unfix x) (unfix y) in
    rw (← exact) (elim (Bool-cases (is_negative r)) [
      | inl minus ↦
          rw (minus, ==_comm (unfix (fix r)) r)
            (elim (Bool-cases (r == unfix (fix r))) [
              | inl fits ↦ rw fits (fix-IsFixnum r, kept r fits)
              | inr over ↦
                  let big = overflow_negative r word over minus in
                  rw (over, word_int-negative r word minus)
                    (one_limb-Computes true (negate r) big.1 big.0)
            ])
      | inr plus ↦ rw plus (elim (Bool-cases (leb r most_positive_fixnum)) [
        | inl fits ↦ rw fits (fix-IsFixnum r, kept r (small_fits r fits))
        | inr over ↦
            rw (over, word_int-positive r plus)
              (one_limb-Computes false r word (above_limit r over))
      ])
    ])

sub_zero : (a : ℤ) → a -ℤ pos 0 ≡ a
unfolding ◌-ℤ◌
sub_zero a = ground arith

nonzero_positive :
    (x : ℕ)
    → IsFixnum x
    → (x == 0) ≡ false
    → is_negative (unfix x) ≡ false
    → is_positive (unfix x) ≡ true
unfolding is_positive is_negative unfix
nonzero_positive x h nonzero plus = ground arith

-- The two operations on limbs, by the signs that the operands enter the sum with.
module _ (gmp : Mpn) (fresh : Fresh) (n : ℕ) (y : Block) (hy : IsBignum y)
    (small : n ≤ 2 ^ 60) where
  less_bignum :
      (t : Bool)
      → n ≤ magnitude y
      → Computes (signed (not t) n +ℤ signed t (magnitude y)) (sub_limb gmp fresh t y n)
  less_bignum t below =
      rw (signed-+ℤ_other t n (magnitude y) below)
        (sub_limb-Computes gmp fresh t y n hy small below)

  and_bignum :
      (s : Bool)
      → 0 < n
      → count_of y + 1 < 2 ^ 60
      → Computes (signed s n +ℤ signed s (magnitude y)) (add_limb gmp fresh s y n)
  and_bignum s gt room =
      let large = (IsBignum-Bounds hy).large in
      rw (signed-+ℤ_same s n (magnitude y)) (
        add_limb-Computes gmp fresh s y n hy (omega arith) room
          (omega (arith, large, limit-le s, limit-ge (negative_bit y.first))))

  below_bignum : n ≤ limit (negative_bit y.first) → n ≤ magnitude y
  below_bignum h = omega (arith, (IsBignum-Bounds hy).large)

module _ (gmp : Mpn) (fresh : Fresh) (x : ℕ) (y : Block) (hx : IsFixnum x) (hy : IsBignum y)
    (room : count_of y + 1 < 2 ^ 60) where
  minuend_positive :
      (n : ℕ)
      → 0 < n
      → n ≤ limit false
      → Computes (signed false n -ℤ block_int y) (
          if negative_bit y.first
          then add_limb gmp fresh false y n
          else sub_limb gmp fresh true y n)
  minuend_positive n gt small =
      let small' : n ≤ 2 ^ 60 = omega (arith, limit-le false) in
      rw (-ℤ_signed (signed false n) (negative_bit y.first) (magnitude y))
        (elim (Bool-cases (negative_bit y.first)) [
          | inl minus ↦ rw minus (and_bignum gmp fresh n y hy small' false gt room)
          | inr plus ↦ rw plus (
              less_bignum gmp fresh n y hy small' true
                (below_bignum gmp fresh n y hy small' (rw plus small)))
        ])

  minuend_negative :
      (n : ℕ)
      → 0 < n
      → n ≤ limit true
      → Computes (signed true n -ℤ block_int y) (
          if negative_bit y.first
          then sub_limb gmp fresh false y n
          else add_limb gmp fresh true y n)
  minuend_negative n gt small =
      let small' : n ≤ 2 ^ 60 = omega (arith, limit-le true) in
      rw (-ℤ_signed (signed true n) (negative_bit y.first) (magnitude y))
        (elim (Bool-cases (negative_bit y.first)) [
          | inl minus ↦ rw minus (
              less_bignum gmp fresh n y hy small' false
                (below_bignum gmp fresh n y hy small' (rw minus small)))
          | inr plus ↦ rw plus (and_bignum gmp fresh n y hy small' true gt room)
        ])

  -- For every GMP and every content of fresh memory, `fxbnminus` of a fixnum and a well-formed
  -- bignum of less than 2 ^ 60 - 1 limbs returns a well-formed integer, the fixnum less the bignum,
  -- and does not end the process.
  pub fxbnminus-Computes : Computes (fixnum_int x -ℤ block_int y) (fxbnminus gmp fresh x y)
  unfolding fxbnminus
  fxbnminus-Computes = elim (Bool-cases (x == 0)) [
    | inl none ↦
        rw
          (
            none,
            zero_fixnum x none,
            -ℤ_signed (pos 0) (negative_bit y.first) (magnitude y),
            zero-+ℤ,
          )
          (bnnegate-Computes y hy)
    | inr nonzero ↦ rw nonzero (elim (Bool-cases (is_positive (unfix x))) [
      | inl plus ↦
          let f = positive_fixnum x hx plus in rw (plus, f.0) (minuend_positive (unfix x) f.1 f.2)
      | inr minus ↦
          let f = negative_fixnum x hx nonzero minus in
          rw (minus, f.0) (minuend_negative (negate (unfix x)) f.1 f.2)
    ])
  ]

  subtrahend_negative :
      (n : ℕ)
      → 0 < n
      → n ≤ limit true
      → Computes (block_int y -ℤ signed true n) (
          if negative_bit y.first
          then sub_limb gmp fresh true y n
          else add_limb gmp fresh false y n)
  subtrahend_negative n gt small =
      let small' : n ≤ 2 ^ 60 = omega (arith, limit-le true) in
      rw (-ℤ_signed (block_int y) true n, +ℤ_comm (block_int y) (signed false n))
        (elim (Bool-cases (negative_bit y.first)) [
          | inl minus ↦ rw minus (
              less_bignum gmp fresh n y hy small' true
                (below_bignum gmp fresh n y hy small' (rw minus small)))
          | inr plus ↦ rw plus (and_bignum gmp fresh n y hy small' false gt room)
        ])

  subtrahend_positive :
      (n : ℕ)
      → 0 < n
      → n ≤ limit false
      → Computes (block_int y -ℤ signed false n) (
          if negative_bit y.first
          then add_limb gmp fresh true y n
          else sub_limb gmp fresh false y n)
  subtrahend_positive n gt small =
      let small' : n ≤ 2 ^ 60 = omega (arith, limit-le false) in
      rw (-ℤ_signed (block_int y) false n, +ℤ_comm (block_int y) (signed true n))
        (elim (Bool-cases (negative_bit y.first)) [
          | inl minus ↦ rw minus (and_bignum gmp fresh n y hy small' true gt room)
          | inr plus ↦ rw plus (
              less_bignum gmp fresh n y hy small' false
                (below_bignum gmp fresh n y hy small' (rw plus small)))
        ])

  -- For every GMP and every content of fresh memory, `bnfxminus` of a well-formed bignum of less
  -- than 2 ^ 60 - 1 limbs and a fixnum returns a well-formed integer, the bignum less the fixnum,
  -- and does not end the process.
  pub bnfxminus-Computes : Computes (block_int y -ℤ fixnum_int x) (bnfxminus gmp fresh y x)
  unfolding bnfxminus
  bnfxminus-Computes = elim (Bool-cases (x == 0)) [
    | inl none ↦ rw none (hy, rw (zero_fixnum x none, sub_zero))
    | inr nonzero ↦ rw nonzero (elim (Bool-cases (is_negative (unfix x))) [
      | inl minus ↦
          let f = negative_fixnum x hx nonzero (not_positive (unfix x) minus) in
          rw (minus, f.0) (subtrahend_negative (negate (unfix x)) f.1 f.2)
      | inr plus ↦
          let f = positive_fixnum x hx (nonzero_positive x hx nonzero plus) in
          rw (plus, f.0) (subtrahend_positive (unfix x) f.1 f.2)
    ])
  ]
