-- ===== src/Numerics/Addition/Fixnums.antt =====
-- The sums in which an operand is a fixnum.
use vicare_scheme.Base.{
  ℕ, ◌+◌, ◌^◌, ◌<◌, ◌≤◌, ◌≡◌, ap, sym, ◌∙◌, inl, inr, Bool, true, false, [], ◌∷◌, arith, ◌==◌,
  ==_iff, Bool-cases, if◌then◌else◌,
}
use vicare_scheme.Base.Int.{pos, ◌+ℤ◌, zero-+ℤ, signed, signed-+ℤ_other, signed-+ℤ_same}
use vicare_scheme.Numerics.Words.{
  word_base, fix, unfix, add_words, negate, is_negative, IsFixnum, fixnum_int, word_int, limit,
}
use vicare_scheme.Numerics.Limbs.{weight, val}
use vicare_scheme.Numerics.Mpn.{Mpn, Fresh}
use vicare_scheme.Numerics.Bignum.{
  Block, IsBignum, Computes, first_word, verified, count_of, magnitude, negative_bit, block_int,
}
use vicare_scheme.Numerics.Magnitude.{Holds-Computes, IsBignum-Bounds}
use vicare_scheme.Numerics.Sum.{add_limb, sub_limb, add_limb-Computes, sub_limb-Computes}
use vicare_scheme.Numerics.Addition.{fxfxplus, fxbnplus, is_positive}

-- A bignum of one limb.
pub one_limb-Computes :
    (s : Bool) (limb : ℕ)
    → limb < word_base
    → limit s < limb
    → Computes (signed s limb) (verified (record { first = first_word 1 s; limbs = limb ∷ [] }))
unfolding val weight
one_limb-Computes s limb word large = Holds-Computes (record {
  count_pos = omega arith;
  count_fits = omega arith;
  held = omega arith;
  words = (word, tt);
  number = omega arith;
  lower = omega arith;
  large = large;
})

-- Two fixnums never overflow a word.
pub word_int-add_words :
    (x y : ℕ)
    → IsFixnum x
    → IsFixnum y
    → word_int (add_words (unfix x) (unfix y)) ≡ fixnum_int x +ℤ fixnum_int y
unfolding word_int add_words fixnum_int ◌+ℤ◌
word_int-add_words x y hx hy = ground arith

pub add_words-lt : (a b : ℕ) → add_words a b < word_base
unfolding add_words
add_words-lt a b = omega arith

pub fix-IsFixnum : (w : ℕ) → IsFixnum (fix w)
unfolding fix
fix-IsFixnum w = omega arith

pub word_int-positive : (r : ℕ) → is_negative r ≡ false → word_int r ≡ signed false r
unfolding word_int is_negative signed
word_int-positive r h = ground arith

pub word_int-negative :
    (r : ℕ) → r < word_base → is_negative r ≡ true → word_int r ≡ signed true (negate r)
unfolding word_int is_negative signed negate
word_int-negative r w h = ground arith

pub overflow_positive :
    (r : ℕ) → r < word_base → (r == unfix (fix r)) ≡ false → is_negative r ≡ false → limit false < r
unfolding unfix fix is_negative limit
overflow_positive r w h p = ground arith

pub overflow_negative :
    (r : ℕ)
    → r < word_base
    → (r == unfix (fix r)) ≡ false
    → is_negative r ≡ true
    → (limit true < negate r) × (negate r < word_base)
unfolding unfix fix is_negative limit negate
overflow_negative r w h p = ground arith

pub kept : (r : ℕ) → (r == unfix (fix r)) ≡ true → fixnum_int (fix r) ≡ word_int r
unfolding fixnum_int
kept r h = ap word_int (sym ((==_iff _ _).0 h))

pub not_positive : (r : ℕ) → is_negative r ≡ true → is_positive r ≡ false
unfolding is_positive
not_positive r h = ground arith

positive : (r : ℕ) → (r == unfix (fix r)) ≡ false → is_negative r ≡ false → is_positive r ≡ true
unfolding is_positive unfix fix
positive r over h = ground arith

-- `fxfxplus` of two fixnums returns a well-formed integer, their sum, and does not end the process.
pub fxfxplus-Computes :
    (x y : ℕ) → IsFixnum x → IsFixnum y → Computes (fixnum_int x +ℤ fixnum_int y) (fxfxplus x y)
unfolding fxfxplus
fxfxplus-Computes x y hx hy =
    let r = add_words (unfix x) (unfix y) in
    let exact = word_int-add_words x y hx hy in
    let word = add_words-lt (unfix x) (unfix y) in
    elim (Bool-cases (r == unfix (fix r))) [
      | inl fits ↦ rw fits (fix-IsFixnum r, kept r fits ∙ exact)
      | inr over ↦
          rw (over, ← exact)
            (elim (Bool-cases (is_negative r)) [
              | inl minus ↦
                  let big = overflow_negative r word over minus in
                  rw (not_positive r minus, word_int-negative r word minus)
                    (one_limb-Computes true (negate r) big.1 big.0)
              | inr plus ↦
                  let big = overflow_positive r word over plus in
                  rw (positive r over plus, word_int-positive r plus)
                    (one_limb-Computes false r word big)
            ])
    ]

pub zero_fixnum : (x : ℕ) → (x == 0) ≡ true → fixnum_int x ≡ pos 0
unfolding fixnum_int
zero_fixnum x h = ground arith

pub positive_fixnum :
    (x : ℕ)
    → IsFixnum x
    → is_positive (unfix x) ≡ true
    → (fixnum_int x ≡ signed false (unfix x)) × (0 < unfix x) × (unfix x ≤ limit false)
unfolding is_positive is_negative fixnum_int signed limit
positive_fixnum x h plus = ground arith

pub negative_fixnum :
    (x : ℕ)
    → IsFixnum x
    → (x == 0) ≡ false
    → is_positive (unfix x) ≡ false
    → (fixnum_int x ≡ signed true (negate (unfix x)))
      × (0 < negate (unfix x))
      × (negate (unfix x) ≤ limit true)
unfolding is_positive is_negative fixnum_int signed limit negate
negative_fixnum x h nonzero minus = ground arith

module _ (gmp : Mpn) (fresh : Fresh) (n : ℕ) (y : Block) (hy : IsBignum y)
    (room : count_of y + 1 < 2 ^ 60) (pos : 0 < n) where
  positive_sum :
      n ≤ limit false
      → Computes (signed false n +ℤ block_int y) (
          if negative_bit y.first
          then sub_limb gmp fresh true y n
          else add_limb gmp fresh false y n)
  unfolding limit
  positive_sum small =
      let large = (IsBignum-Bounds hy).large in
      elim (Bool-cases (negative_bit y.first)) [
        | inl minus ↦
            rw (minus, signed-+ℤ_other true n (magnitude y) (ground (arith, large)))
              (sub_limb-Computes gmp fresh true y n hy (omega arith) (ground (arith, large)))
        | inr plus ↦
            rw (plus, signed-+ℤ_same false n (magnitude y))
              (add_limb-Computes gmp fresh false y n hy (omega arith) room (ground (arith, large)))
      ]

  negative_sum :
      n ≤ limit true
      → Computes (signed true n +ℤ block_int y) (
          if negative_bit y.first
          then add_limb gmp fresh true y n
          else sub_limb gmp fresh false y n)
  unfolding limit
  negative_sum small =
      let large = (IsBignum-Bounds hy).large in
      elim (Bool-cases (negative_bit y.first)) [
        | inl minus ↦
            rw (minus, signed-+ℤ_same true n (magnitude y))
              (add_limb-Computes gmp fresh true y n hy (omega arith) room (ground (arith, large)))
        | inr plus ↦
            rw (plus, signed-+ℤ_other false n (magnitude y) (ground (arith, large)))
              (sub_limb-Computes gmp fresh false y n hy (omega arith) (ground (arith, large)))
      ]

-- For every GMP and every content of fresh memory, `fxbnplus` of a fixnum and a well-formed bignum
-- of less than 2 ^ 60 - 1 limbs returns a well-formed integer, their sum, and does not end the
-- process.
pub fxbnplus-Computes :
    (gmp : Mpn) (fresh : Fresh) (x : ℕ) (y : Block)
    → IsFixnum x
    → IsBignum y
    → count_of y + 1 < 2 ^ 60
    → Computes (fixnum_int x +ℤ block_int y) (fxbnplus gmp fresh x y)
unfolding fxbnplus
fxbnplus-Computes gmp fresh x y hx hy room = elim (Bool-cases (x == 0)) [
  | inl none_added ↦ rw none_added (hy, rw (zero_fixnum x none_added, zero-+ℤ))
  | inr nonzero ↦ rw nonzero (elim (Bool-cases (is_positive (unfix x))) [
    | inl plus ↦
        let f = positive_fixnum x hx plus in
        rw (plus, f.0) (positive_sum gmp fresh (unfix x) y hy room f.1 f.2)
    | inr minus ↦
        let f = negative_fixnum x hx nonzero minus in
        rw (minus, f.0) (negative_sum gmp fresh (negate (unfix x)) y hy room f.1 f.2)
  ])
]
