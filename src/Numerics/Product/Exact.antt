-- ===== src/Numerics/Product/Exact.antt =====
-- The products are exact.
use vicare_scheme.Base.{
  ℕ, ◌+◌, ◌-◌, ◌*◌, ◌^◌, ◌<◌, ◌≡◌, refl, ap, ◌∙◌, inl, inr, Bool, true, false, not, List, [], ◌∷◌,
  ◌++◌, arith, leb, ◌==◌, ==_iff, Bool-cases, if◌then◌else◌, length, take, length-take,
  length-append, All-append, All-take, take-all,
}
use mathlib.Core.Path.{ap₂}
use native.Mathlib.Nat.{mul_comm, add_comm}
use vicare_scheme.Base.Int.{◌*ℤ◌, signed}
use vicare_scheme.Numerics.Words.{
  word_base, unfix, is_negative, magnitude_word, negate, IsFixnum, fixnum_int, fixnum_magnitude,
  limit-le,
}
use vicare_scheme.Numerics.Limbs.{IsLimbs, weight, val, val-append}
use vicare_scheme.Numerics.Mpn.{Mpn}
use vicare_scheme.Numerics.Bignum.{
  Block, IsBignum, Computes, count_of, digits_of, magnitude, negative_bit, block_int, verified,
  first_word,
}
use vicare_scheme.Numerics.Normalize.{
  normalize, make_integer, normalize-Computes, single-Computes, zero-Computes,
}
use vicare_scheme.Numerics.Magnitude.{Holds-Computes, limit-lt-base}
use vicare_scheme.Numerics.Addition.{is_positive}
use vicare_scheme.Numerics.Addition.Fixnums.{positive_fixnum, negative_fixnum}
use vicare_scheme.Numerics.Product.{fxfxmult, fxbnmult, bnbnmult, product_sign}

pub signed-*ℤ :
    (s t : Bool) (n m : ℕ) → signed s n *ℤ signed t m ≡ signed (product_sign s t) (n * m)
unfolding signed ◌*ℤ◌ product_sign
signed-*ℤ false false n m = ground arith
signed-*ℤ false true n m = grind arith
signed-*ℤ true false n m = grind arith
signed-*ℤ true true n m = grind arith

-- The limbs of a product by a word, with the high word above them.
val-with_high :
    (low : List ℕ) (hi n : ℕ) → length low ≡ n → val (low ++ hi ∷ []) ≡ val low + weight n * hi
unfolding val
val-with_high low hi n e =
    let split = rw e at (val-append low (hi ∷ [])) in split ∙ rw (one_limb hi)
  where
    one_limb : (h : ℕ) → h + word_base * 0 ≡ h
    one_limb h = omega arith

val_one : (m : ℕ) → val (m ∷ []) ≡ m
unfolding val
val_one m = omega arith

weight_one : weight 1 ≡ word_base
unfolding weight
weight_one = refl

fixnum-product :
    (x y : ℕ)
    → IsFixnum x
    → IsFixnum y
    → fixnum_int x *ℤ fixnum_int y
      ≡ signed
          (product_sign (is_negative (unfix x)) (is_negative (unfix y)))
          (magnitude_word (unfix x) * magnitude_word (unfix y))
fixnum-product x y hx hy =
    rw ((fixnum_magnitude x hx).0, (fixnum_magnitude y hy).0) (signed-*ℤ _ _ _ _)

pub magnitude-lt_base : (x : ℕ) → IsFixnum x → magnitude_word (unfix x) < word_base
magnitude-lt_base x h = omega (arith, (fixnum_magnitude x h).1, limit-le (is_negative (unfix x)))

pub all_limbs :
    (s : Bool) (n : ℕ) (limbs : List ℕ)
    → length limbs ≡ n
    → IsLimbs limbs
    → n < 2 ^ 60
    → Computes (signed s (val limbs)) (normalize n s limbs)
all_limbs s n limbs width words fits =
    rw (take-all n limbs (omega (arith, width))) at
      (normalize-Computes n s limbs fits (omega (arith, width)) words)

-- A product of two words in one or two limbs.
two_limbs :
    (s : Bool) (lo : List ℕ) (hi p : ℕ)
    → length lo ≡ 1
    → IsLimbs lo
    → hi < word_base
    → val lo + word_base * hi ≡ p
    → Computes (signed s p) (
        if hi == 0
        then make_integer s 1 lo
        else verified (record { first = first_word 2 s; limbs = lo ++ hi ∷ [] }))
two_limbs s lo hi p width words high product = elim (Bool-cases (hi == 0)) [
  | inl low ↦
      let product' = rw ((==_iff _ 0).0 low) at product in
      let number : val (take 1 lo) ≡ p =
        rw (take-all 1 lo (omega (arith, width))) (omega (arith, product')) in
      rw (low, ← number) (single-Computes s lo width words)
  | inr tall ↦
      let number = rw weight_one at (val-with_high lo hi 1 width) in
      let pos : 0 < hi = ground arith in
      let wide = length-append lo (hi ∷ []) in
      rw tall (
        Holds-Computes (record {
          count_pos = omega arith;
          count_fits = omega arith;
          held = omega (arith, wide, width);
          words = All-append (λ l. l < word_base) lo (hi ∷ []) words (high, tt);
          number =
              rw (take-all 2 (lo ++ hi ∷ []) (omega (arith, wide, width)))
                (omega (arith, number, product));
          lower = let e : 2 - 1 ≡ 1 = omega arith in rw (e, weight_one) (omega (arith, product));
          large = omega (arith, product, limit-lt-base s);
        }))
]

-- For every GMP, `fxfxmult` of two fixnums returns a well-formed integer, their product, and does
-- not end the process.
pub fxfxmult-Computes :
    (gmp : Mpn) (x y : ℕ)
    → IsFixnum x
    → IsFixnum y
    → Computes (fixnum_int x *ℤ fixnum_int y) (fxfxmult gmp x y)
unfolding fxfxmult
fxfxmult-Computes gmp x y hx hy =
    let m₁ = magnitude_word (unfix x) in
    let m₂ = magnitude_word (unfix y) in
    let m =
      gmp.mul_1-Scales (m₁ ∷ []) m₂ (magnitude-lt_base x hx, tt) (omega arith)
        (magnitude-lt_base y hy) in
    let product : val (gmp.mul_1 (m₁ ∷ []) m₂).0 + word_base * (gmp.mul_1 (m₁ ∷ []) m₂).1
        ≡ m₁ * m₂ =
      omega (
        arith,
        m.product,
        val_one m₁,
        weight_one,
        ap (λ (t : ℕ). t * m₂) (val_one m₁),
        ap (λ (t : ℕ). t * (gmp.mul_1 (m₁ ∷ []) m₂).1) weight_one,
      ) in
    rw (fixnum-product x y hx hy) (two_limbs _ _ _ _ m.width m.words m.high product)

-- The sign of a product with a bignum, as the code computes it.
product_sign-branches : (s t : Bool) → (if s then not t else t) ≡ product_sign s t
unfolding product_sign
product_sign-branches true t = refl
product_sign-branches false true = refl
product_sign-branches false false = refl

product_sign-false : (t : Bool) → product_sign false t ≡ t
unfolding product_sign
product_sign-false true = refl
product_sign-false false = refl

product_sign-true : (t : Bool) → product_sign true t ≡ not t
unfolding product_sign
product_sign-true t = refl

unfix_zero : (x : ℕ) → IsFixnum x → (unfix x == 0) ≡ true → fixnum_int x ≡ signed false 0
unfolding fixnum_int signed
unfix_zero x h none = ground arith

zero_test : (x : ℕ) → IsFixnum x → (unfix x == 0) ≡ false → (x == 0) ≡ false
unfolding unfix
zero_test x h nonzero = ground arith

-- A magnitude times a word, with the sign of the product.
times :
    (gmp : Mpn) (y : Block)
    → IsBignum y
    → count_of y + 1 < 2 ^ 60
    → (s : Bool) (n : ℕ) → n < word_base
    → Computes (signed s n *ℤ block_int y) (
        normalize
          (count_of y + 1)
          (product_sign s (negative_bit y.first))
          ((gmp.mul_1 (digits_of y) n).0 ++ (gmp.mul_1 (digits_of y) n).1 ∷ []))
times gmp y h room s n small =
    let k = count_of y in
    let wide = length-take k y.limbs h.held in
    let limbs = All-take (λ l. l < word_base) k y.limbs h.words in
    let m = gmp.mul_1-Scales (digits_of y) n limbs (omega (arith, wide, h.count_pos)) small in
    let low = (gmp.mul_1 (digits_of y) n).0 in
    let hi = (gmp.mul_1 (digits_of y) n).1 in
    let number : val (low ++ hi ∷ []) ≡ n * magnitude y =
      val-with_high low hi (length (digits_of y)) m.width
      ∙ (m.product ∙ mul_comm (magnitude y) n) in
    rw (signed-*ℤ s (negative_bit y.first) n (magnitude y), ← number)
      (all_limbs _ _ _ (length-append low (hi ∷ []) ∙ ap (λ (t : ℕ). t + 1) (m.width ∙ wide))
        (All-append (λ l. l < word_base) low (hi ∷ []) m.words (m.high, tt)) room)

-- For every GMP, `fxbnmult` of a fixnum and a well-formed bignum of less than 2 ^ 60 - 1 limbs
-- returns a well-formed integer, their product, and does not end the process.
pub fxbnmult-Computes :
    (gmp : Mpn) (x : ℕ) (y : Block)
    → IsFixnum x
    → IsBignum y
    → count_of y + 1 < 2 ^ 60
    → Computes (fixnum_int x *ℤ block_int y) (fxbnmult gmp x y)
unfolding fxbnmult
fxbnmult-Computes gmp x y hx hy room = elim (Bool-cases (unfix x == 0)) [
  | inl none ↦
      rw (none, unfix_zero x hx none, signed-*ℤ)
        (zero-Computes (product_sign false (negative_bit y.first)) _ (omega arith))
  | inr nonzero ↦ rw nonzero (elim (Bool-cases (is_positive (unfix x))) [
    | inl plus ↦
        let f = positive_fixnum x hx plus in
        rw (plus, f.0)
          (rw (product_sign-false (negative_bit y.first)) at
            (times gmp y hy room false (unfix x) (omega (arith, f.2, limit-le false))))
    | inr minus ↦
        let f = negative_fixnum x hx (zero_test x hx nonzero) minus in
        rw (minus, f.0)
          (rw (product_sign-true (negative_bit y.first)) at
            (times gmp y hy room true (negate (unfix x)) (omega (arith, f.2, limit-le true))))
  ])
]

-- For every GMP, `bnbnmult` of two well-formed bignums of less than 2 ^ 60 limbs together returns a
-- well-formed integer, their product, and does not end the process.
pub bnbnmult-Computes :
    (gmp : Mpn) (x y : Block)
    → IsBignum x
    → IsBignum y
    → count_of x + count_of y < 2 ^ 60
    → Computes (block_int x *ℤ block_int y) (bnbnmult gmp x y)
unfolding bnbnmult
bnbnmult-Computes gmp x y hx hy room =
    let n₁ = count_of x in
    let n₂ = count_of y in
    let wx = length-take n₁ x.limbs hx.held in
    let wy = length-take n₂ y.limbs hy.held in
    let lx = All-take (λ l. l < word_base) n₁ x.limbs hx.words in
    let ly = All-take (λ l. l < word_base) n₂ y.limbs hy.words in
    rw (signed-*ℤ, product_sign-branches)
      (elim (Bool-cases (leb n₂ n₁)) [
        | inl longer ↦
            let m =
              gmp.mul-Multiplies (digits_of x) (digits_of y) lx ly (omega (arith, wy, hy.count_pos))
                (ground (arith, wx, wy)) in
            rw (longer, ← m.product) (all_limbs _ _ _ (m.width ∙ ap₂ ◌+◌ wx wy) m.words room)
        | inr shorter ↦
            let m =
              gmp.mul-Multiplies (digits_of y) (digits_of x) ly lx (omega (arith, wx, hx.count_pos))
                (ground (arith, wx, wy)) in
            rw (shorter, mul_comm (magnitude x) (magnitude y), ← m.product)
              (all_limbs _ _ _ (m.width ∙ ap₂ ◌+◌ wy wx ∙ add_comm n₂ n₁) m.words room)
      ])
