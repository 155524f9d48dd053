-- ===== src/Numerics/Comparison/Order.antt =====
-- The comparison of bignums is the order of the integers.
use vicare_scheme.Base.{
  ℕ, zero, suc, ◌+◌, ◌*◌, ◌<◌, ◌≤◌, ◌≡◌, refl, inl, inr, true, false, List, [], arith, ltb,
  if◌then◌else◌, Bool-cases, length, get_or, take,
}
use vicare_scheme.Base.Int.{ℤ, pos_part, neg_part, signed_pos, signed_neg}
use vicare_scheme.Numerics.Words.{fix, negate}
use vicare_scheme.Numerics.Limbs.{IsLimbs, weight, val, val-take-suc, val-take_lt}
use vicare_scheme.Numerics.Bignum.{Block, IsBignum, count_of, magnitude, negative_bit, block_int}
use vicare_scheme.Numerics.Opposite.{lt_of_count}
use vicare_scheme.Numerics.Magnitude.{IsBignum-Bounds}
use vicare_scheme.Numerics.Comparison.{compare_limbs, compare_magnitudes, bnbncomp}

-- One of three words, by the order of two numbers.
abbrev pub by_order : ℕ → ℕ → ℕ → ℕ → ℕ
by_order a b less greater = if ltb a b then less else if ltb b a then greater else 0

-- One of three words, by the order of two integers.
abbrev pub by_int_order : ℤ → ℤ → ℕ → ℕ → ℕ
by_int_order a b = by_order (pos_part a + neg_part b) (pos_part b + neg_part a)

mul_above : (w a b : ℕ) → a < b → w * a + w ≤ w * b
mul_above w a b h = grind arith

top_decides : (w a b p q : ℕ) → p < w → q < w → a < b → p + w * a < q + w * b
top_decides w a b p q hp hq h = omega (arith, mul_above w a b h)

by_order_self : (n less greater : ℕ) → 0 ≡ by_order n n less greater
by_order_self n less greater = ground arith

order_shift :
    (k p q less greater rest : ℕ)
    → rest ≡ by_order p q less greater
    → rest ≡ by_order (p + k) (q + k) less greater
order_shift k p q less greater rest e =
    let l : ltb p q ≡ ltb (p + k) (q + k) = ground arith in
    let g : ltb q p ≡ ltb (q + k) (p + k) = ground arith in rw (← l, ← g) e

-- The top limbs decide, and otherwise the limbs below them do.
by_order_step :
    (w a b p q less greater rest : ℕ)
    → p < w
    → q < w
    → rest ≡ by_order p q less greater
    → (if ltb a b then less else if ltb b a then greater else rest)
      ≡ by_order (p + w * a) (q + w * b) less greater
by_order_step w a b p q less greater rest hp hq e = elim (Bool-cases (ltb a b)) [
  | inl below ↦
      let lt : p + w * a < q + w * b = top_decides w a b p q hp hq (ground arith) in
      let l : ltb (p + w * a) (q + w * b) ≡ true = ground arith in rw (below, l) refl
  | inr rest_of ↦ rw rest_of (elim (Bool-cases (ltb b a)) [
    | inl over ↦
        let lt : q + w * b < p + w * a = top_decides w b a q p hq hp (ground arith) in
        let l : ltb (p + w * a) (q + w * b) ≡ false = ground arith in
        let g : ltb (q + w * b) (p + w * a) ≡ true = ground arith in rw (over, l, g) refl
    | inr level ↦
        let same : a ≡ b = ground arith in
        rw (level, same) (order_shift (w * b) p q less greater rest e)
  ])
]

compare_limbs-order :
    (n : ℕ) (xs ys : List ℕ) (less greater : ℕ)
    → n ≤ length xs
    → n ≤ length ys
    → IsLimbs xs
    → IsLimbs ys
    → compare_limbs n xs ys less greater ≡ by_order (val (take n xs)) (val (take n ys)) less greater
unfolding compare_limbs
compare_limbs-order zero xs ys less greater px py hx hy = by_order_self (val []) less greater
compare_limbs-order (suc n) xs ys less greater px py hx hy =
    rw (val-take-suc n xs px, val-take-suc n ys py)
      (by_order_step (weight n) (get_or xs n 0) (get_or ys n 0) (val (take n xs)) (val (take n ys))
        less greater (compare_limbs n xs ys less greater) (val-take_lt n xs hx (omega arith))
        (val-take_lt n ys hy (omega arith))
        (compare_limbs-order n xs ys less greater (omega arith) (omega arith) hx hy))

compare_magnitudes-order :
    (x y : Block) (less greater : ℕ)
    → IsBignum x
    → IsBignum y
    → compare_magnitudes x y less greater ≡ by_order (magnitude x) (magnitude y) less greater
unfolding compare_magnitudes
compare_magnitudes-order x y less greater hx hy =
    elim (Bool-cases (ltb (count_of x) (count_of y))) [
      | inl shorter ↦
          let lt : count_of x < count_of y = ground arith in
          let lower = lt_of_count hx hy lt in rw shorter (ground (arith, lower))
      | inr rest ↦ rw rest (elim (Bool-cases (ltb (count_of y) (count_of x))) [
        | inl longer ↦
            let lt : count_of y < count_of x = ground arith in
            let lower = lt_of_count hy hx lt in rw longer (ground (arith, lower))
        | inr level ↦
            let e : count_of x ≡ count_of y = ground arith in
            let my : val (take (count_of x) y.limbs) ≡ magnitude y = rw e in
            rw (level, ← my)
              (compare_limbs-order (count_of x) x.limbs y.limbs less greater hx.held
                (omega (arith, e, hy.held)) hx.words hy.words)
      ])
    ]

-- `bnbncomp` of two well-formed bignums is the tagged -1 where the first is less, the tagged 1
-- where it is greater, and 0 where the two are equal as integers.
pub bnbncomp-order :
    (x y : Block)
    → IsBignum x
    → IsBignum y
    → bnbncomp x y ≡ by_int_order (block_int x) (block_int y) (fix (negate 1)) (fix 1)
unfolding bnbncomp
bnbncomp-order x y hx hy =
    let mx = (IsBignum-Bounds hx).large in
    let my = (IsBignum-Bounds hy).large in
    elim (Bool-cases (negative_bit x.first)) [
      | inl sx ↦ rw sx (elim (Bool-cases (negative_bit y.first)) [
        | inl sy ↦
            rw (sy, compare_magnitudes-order x y (fix 1) (fix (negate 1)) hx hy)
              (ground (arith, signed_neg (magnitude x), signed_neg (magnitude y)))
        | inr sy ↦
            rw sy (ground (arith, mx, my, signed_neg (magnitude x), signed_pos (magnitude y)))
      ])
      | inr sx ↦ rw sx (elim (Bool-cases (negative_bit y.first)) [
        | inl sy ↦
            rw sy (ground (arith, mx, my, signed_pos (magnitude x), signed_neg (magnitude y)))
        | inr sy ↦
            rw (sy, compare_magnitudes-order x y (fix (negate 1)) (fix 1) hx hy)
              (ground (arith, signed_pos (magnitude x), signed_pos (magnitude y)))
      ])
    ]
