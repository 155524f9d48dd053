-- ===== src/Numerics/Conjunction.antt =====
-- The branch of `ikrt_bnbnlogand` for two positive bignums.
use Prim.Native.Nat.{bit_and}
use vicare_scheme.Base.{
  ℕ, zero, suc, ◌%◌, ◌^◌, ◌<◌, ◌≤◌, ◌≡◌, refl, false, ◌&&◌, List, [], ◌∷◌, ◌++◌, arith, ltb, ◌==◌,
  if◌then◌else◌, get_or,
}
use vicare_scheme.Base.Int.{pos, signed}
use vicare_scheme.Numerics.Words.{fix, most_positive_fixnum, limit}
use vicare_scheme.Numerics.Limbs.{val-take_one}
use vicare_scheme.Numerics.Bignum.{
  Block, Value, fixnum, bignum, first_word, count_of, limb_count-first_word,
  negative_bit-first_word, IsBignum, IsInteger, int_of,
}

module _ (x y : Block) where
  -- The conjunction of two limbs.
  unfoldable pub and_limb : ℕ → ℕ
  and_limb i = bit_and (get_or x.limbs i 0) (get_or y.limbs i 0)

  -- The limbs below the last one, and that one. The C loop multiplies its index by the size of a word in an
  -- `int`, which holds the product for fewer than 2 ^ 28 limbs.
  unfoldable pub and_limbs : ℕ → List ℕ
  and_limbs zero = []
  and_limbs (suc n) = and_limbs n ++ (and_limb n ∷ [])

  -- The loop from the highest common limb down, to the first that is not 0.
  unfoldable pub and_from : ℕ → Value
  and_from zero = fixnum 0
  and_from (suc i) =
      let rest = and_from i in
      if and_limb i == 0
      then rest
      else if (i == 0) && ltb (and_limb i) most_positive_fixnum
      then fixnum (fix (and_limb i))
      else bignum (record { first = first_word (suc i) false; limbs = and_limbs (suc i) })

  -- `int n`, the smaller count cut to 32 bits. The loop has no round where that is negative.
  unfoldable pub common_count : ℕ
  common_count =
      let n = (if ltb (count_of x) (count_of y) then count_of x else count_of y) % 2 ^ 32 in
      if ltb n (2 ^ 31) then n else 0

  unfoldable pub bnbnlogand_positive : Value
  bnbnlogand_positive = and_from common_count

  -- The high limbs of a conjunction are 0.
  zeros_above :
      (n : ℕ) → 0 < n → ((i : ℕ) → 0 < i → i < n → and_limb i ≡ 0) → and_from n ≡ and_from 1
  unfolding and_from
  zeros_above zero some_limb zeros = absurd (omega arith)
  zeros_above (suc zero) some_limb zeros = refl
  zeros_above (suc (suc n)) some_limb zeros =
      let e : and_limb (suc n) ≡ 0 = zeros (suc n) (omega arith) (omega arith) in
      rw e (zeros_above (suc n) (omega arith) (λ i lo hi. zeros i lo (omega arith)))

  abbrev greatest : Value
  greatest = bignum (record { first = first_word 1 false; limbs = most_positive_fixnum ∷ [] })

  one_left : and_limb 0 ≡ most_positive_fixnum → and_from 1 ≡ greatest
  unfolding and_from and_limbs
  one_left e = rw e refl

greatest_exact :
    int_of (bignum (record { first = first_word 1 false; limbs = most_positive_fixnum ∷ [] }))
    ≡ pos most_positive_fixnum
unfolding signed
greatest_exact =
    let e = limb_count-first_word 1 false (omega arith) in
    let g = negative_bit-first_word 1 false (omega arith) in
    rw (e, g, val-take_one (most_positive_fixnum ∷ []) (omega arith)) refl

greatest_unfit :
    ¬ IsBignum (record { first = first_word 1 false; limbs = most_positive_fixnum ∷ [] })
unfolding limit
greatest_unfit h =
    let e = limb_count-first_word 1 false (omega arith) in
    let g = negative_bit-first_word 1 false (omega arith) in
    let large = rw (e, g) at (h.large e) in omega (arith, large)

-- For two bignums with at least one limb each, the first of fewer than 2 ^ 31 limbs, if the
-- conjunction of their first limbs is the greatest fixnum and the conjunctions of the other common
-- limbs are 0, `bnbnlogand_positive` returns a value that stands for the greatest fixnum and is not
-- a well-formed integer.
pub bnbnlogand_not_normal :
    (x y : Block)
    → 0 < count_of x
    → count_of x < 2 ^ 31
    → 0 < count_of y
    → and_limb x y 0 ≡ most_positive_fixnum
    → ((i : ℕ) → 0 < i → i < count_of x → and_limb x y i ≡ 0)
    → (int_of (bnbnlogand_positive x y) ≡ pos most_positive_fixnum)
      × (¬ IsInteger (bnbnlogand_positive x y))
unfolding bnbnlogand_positive common_count
bnbnlogand_not_normal x y some_x counted some_y low high =
    let n = common_count x y in
    let positive : 0 < n = ground arith in
    let below : n ≤ count_of x = ground arith in
    rw (zeros_above x y n positive (λ i lo hi. high i lo (omega (arith, below))), one_left x y low)
      (greatest_exact, greatest_unfit)
