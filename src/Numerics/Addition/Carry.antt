-- ===== src/Numerics/Addition/Carry.antt =====
-- The sum of two magnitudes, where the carry is stored rightly and where it is not.
use vicare_scheme.Base.{
  ℕ, zero, suc, ◌+◌, ◌-◌, ◌*◌, ◌^◌, ◌<◌, ◌≤◌, ◌≡◌, refl, ◌∙◌, inl, inr, Bool, true, false, List,
  ◌++◌, arith, ◌==◌, Bool-cases, if◌then◌else◌, length, take, set, length-take, All-take, ◌⊎◌,
  length-append, length-set, take-all, get_or-append,
}
use native.Mathlib.Nat.{add_comm}
use vicare_scheme.Base.Int.{ℤ, signed, signed-injective}
use vicare_scheme.Numerics.Words.{word_base, limit, limit-le, limit-ge}
use vicare_scheme.Numerics.Limbs.{
  IsLimbs, weight, val, weight_pos, weight_lt, val-append, val-set, val-lt-weight, get_or-eq-zero,
}
use vicare_scheme.Numerics.Mpn.{Mpn, Fresh}
use vicare_scheme.Numerics.Bignum.{
  Block, IsBignum, Computes, first_word, verified, verify_bignum, negative_bit-first_word,
  limb_count-first_word, count_of, digits_of, magnitude, negative_bit,
}
use vicare_scheme.Numerics.Magnitude.{IsBignum-Bounds}
use vicare_scheme.Numerics.Sum.{
  plain_sum, spare_word, length-spare_word, spare_word-IsLimbs, sum-Computes,
}
use vicare_scheme.Numerics.Addition.{add_magnitudes}

-- The index that a sum's carry is stored at may be named in another way.
at_index :
    (n : ℤ) (s : Bool) (sum spare : List ℕ) (carry : ℕ) (plain : Block) (k j : ℕ)
    → j ≡ k
    → Computes n (
        if carry == 0
        then verified plain
        else verified (record { first = first_word (k + 1) s; limbs = set (sum ++ spare) k 1 }))
    → Computes n (
        if carry == 0
        then verified plain
        else verified (record { first = first_word (k + 1) s; limbs = set (sum ++ spare) j 1 }))
at_index n s sum spare carry plain k j e h = rw e h

no_carry : (v w c m : ℕ) → v + w * c ≡ m → m < w → c ≡ 0
no_carry v w zero m h lt = refl
no_carry v w (suc c) m h lt = absurd (omega arith)

some_carry : (v w c m : ℕ) → v + w * c ≡ m → c ≤ 1 → w ≤ m → v < w → c ≡ 1
some_carry v w zero m h most le lt = absurd (omega arith)
some_carry v w (suc c) m h most le lt = omega arith

no_match : (low high v : ℕ) → 0 < low → low < high → ¬ (low + high * v ≡ high)
no_match low high zero pos lt e = omega arith
no_match low high (suc v) pos lt e = omega arith

-- A carry of weight `k` that is written to the limb `j` of a sum below the weight of that limb.
module _ (s : Bool) (k j : ℕ) (sum spare : List ℕ) (m : ℕ) (width : length sum ≡ k)
    (room : length spare ≡ 1) (lt : j < k) (fits : k + 1 < 2 ^ 60) (low : val sum < weight j)
    (total : val sum + weight k ≡ m) where
  misplaced_number : ¬ (val (take (k + 1) (set (sum ++ spare) j 1)) ≡ m)
  misplaced_number e =
      let whole =
        take-all (k + 1) (set (sum ++ spare) j 1)
          (omega (arith, length-set (sum ++ spare) j 1, length-append sum spare)) in
      let e' = rw whole at e in
      let inside : j < length sum = omega arith in
      let zeros = get_or-append sum spare j 0 inside ∙ get_or-eq-zero j sum low in
      let written =
        rw zeros at (val-set (sum ++ spare) j 1 (omega (arith, length-append sum spare))) in
      let split = rw width at (val-append sum spare) in
      no_match (weight j) (weight k) (val spare) (weight_pos j) (weight_lt j k lt)
        (omega (arith, e', written, split))

  misplaced :
      ¬ Computes
        (signed s m)
        (verified (record { first = first_word (k + 1) s; limbs = set (sum ++ spare) j 1 }))
  unfolding verified
  misplaced h =
      let b : Block = record { first = first_word (k + 1) s; limbs = set (sum ++ spare) j 1 } in
      elim (Bool-cases (verify_bignum b)) [
        | inr stopped ↦ (rw stopped at h)
        | inl passed ↦
            let number = (rw passed at h).1 in
            let number' =
              rw (negative_bit-first_word (k + 1) s fits, limb_count-first_word (k + 1) s fits) at
                number in
            misplaced_number (signed-injective s _ m number')
      ]

module _ (gmp : Mpn) (fresh : Fresh) (x y : Block) (hx : IsBignum x) (hy : IsBignum y) where
  -- `x` is the longer operand.
  pub add_long-Computes :
      count_of y ≤ count_of x
      → count_of x + 1 < 2 ^ 60
      → Computes
          (signed (negative_bit x.first) (magnitude x + magnitude y))
          (add_magnitudes gmp fresh true x y)
  unfolding add_magnitudes spare_word
  add_long-Computes le room =
      let k = count_of x in
      let wx : length (digits_of x) ≡ k = length-take k x.limbs hx.held in
      let wy : length (digits_of y) ≡ count_of y = length-take (count_of y) y.limbs hy.held in
      let lx = All-take (λ l. l < word_base) k x.limbs hx.words in
      let ly = All-take (λ l. l < word_base) (count_of y) y.limbs hy.words in
      let a =
        gmp.add-Adds (digits_of x) (digits_of y) lx ly (omega (arith, wy, hy.count_pos))
          (omega (arith, wx, wy)) in
      let bounds = IsBignum-Bounds hx in
      sum-Computes (negative_bit x.first) k _ _ _ (spare_word fresh k) (a.width ∙ wx)
        (length-spare_word fresh k) a.words (spare_word-IsLimbs fresh k) (rw wx at a.total)
        hx.count_pos room (omega (arith, bounds.lower)) (omega (arith, bounds.large)) a.carry

  -- The facts that GMP gives where `y` is passed as the longer operand.
  short_sum :
      count_of x ≤ count_of y
      → (length (gmp.add (digits_of y) (digits_of x)).0 ≡ count_of y)
        × IsLimbs (gmp.add (digits_of y) (digits_of x)).0
        × ((gmp.add (digits_of y) (digits_of x)).1 ≤ 1)
        × (val (gmp.add (digits_of y) (digits_of x)).0
              + weight (count_of y) * (gmp.add (digits_of y) (digits_of x)).1
            ≡ magnitude x + magnitude y)
  short_sum le =
      let wx : length (digits_of x) ≡ count_of x = length-take (count_of x) x.limbs hx.held in
      let wy : length (digits_of y) ≡ count_of y = length-take (count_of y) y.limbs hy.held in
      let lx = All-take (λ l. l < word_base) (count_of x) x.limbs hx.words in
      let ly = All-take (λ l. l < word_base) (count_of y) y.limbs hy.words in
      let a =
        gmp.add-Adds (digits_of y) (digits_of x) ly lx (omega (arith, wx, hx.count_pos))
          (omega (arith, wx, wy)) in
      (a.width ∙ wy, a.words, a.carry, rw wy at a.total ∙ add_comm (magnitude y) (magnitude x))

  -- `x` is not longer than `y`: the carry is stored rightly if it is zero, or if the counts agree.
  pub add_short-Computes :
      count_of x ≤ count_of y
      → count_of y + 1 < 2 ^ 60
      → (count_of x ≡ count_of y) ⊎ (magnitude x + magnitude y < weight (count_of y))
      → Computes
          (signed (negative_bit x.first) (magnitude x + magnitude y))
          (add_magnitudes gmp fresh false x y)
  unfolding add_magnitudes spare_word
  add_short-Computes le room stored =
      let k = count_of y in
      let (width, words, most, total) = short_sum le in
      let bounds = IsBignum-Bounds hy in
      let lower : weight (k - 1) ≤ magnitude x + magnitude y = omega (arith, bounds.lower) in
      let large : limit (negative_bit x.first) < magnitude x + magnitude y = omega (
        arith,
        bounds.large,
        (IsBignum-Bounds hx).large,
        limit-le (negative_bit x.first),
        limit-ge (negative_bit y.first),
      ) in
      elim stored [
        | inl same ↦
            at_index (signed (negative_bit x.first) (magnitude x + magnitude y))
              (negative_bit x.first) (gmp.add (digits_of y) (digits_of x)).0 (spare_word fresh k)
              (gmp.add (digits_of y) (digits_of x)).1 _ k (count_of x) same
              (sum-Computes (negative_bit x.first) k _ _ _ (spare_word fresh k) width
                (length-spare_word fresh k) words (spare_word-IsLimbs fresh k) total hy.count_pos
                room lower large most)
        | inr low ↦
            let none_carried : (gmp.add (digits_of y) (digits_of x)).1 ≡ 0 =
              no_carry _ (weight k) _ _ total low in
            rw none_carried (
              plain_sum (negative_bit x.first) k _ _ _ (spare_word fresh k) width
                (length-spare_word fresh k) words (spare_word-IsLimbs fresh k) total hy.count_pos
                room lower large none_carried)
      ]

  -- `x` is shorter and the sum carries: the carry overwrites a limb of the sum, and the number that
  -- the block holds is never the sum of the operands.
  pub add_short_wrong :
      count_of x < count_of y
      → count_of y + 1 < 2 ^ 60
      → weight (count_of y) ≤ magnitude x + magnitude y
      → ¬ Computes
          (signed (negative_bit x.first) (magnitude x + magnitude y))
          (add_magnitudes gmp fresh false x y)
  unfolding add_magnitudes spare_word
  add_short_wrong lt room carries =
      let k = count_of y in
      let (width, words, most, total) = short_sum (omega arith) in
      let carried : (gmp.add (digits_of y) (digits_of x)).1 ≡ 1 =
        some_carry _ (weight k) _ _ total most carries
          (rw width at (val-lt-weight (gmp.add (digits_of y) (digits_of x)).0 words)) in
      let total' = rw carried at total in
      let upper = (IsBignum-Bounds hx).upper in
      let below = (IsBignum-Bounds hy).upper in
      rw carried (
        misplaced (negative_bit x.first) k (count_of x) (gmp.add (digits_of y) (digits_of x)).0
          (spare_word fresh k) _ width (length-spare_word fresh k) lt room
          (omega (arith, total', upper, below)) (omega (arith, total')))
