-- ===== src/Numerics/Sum.antt =====
-- The branches that src/ikarus-numerics.c repeats in its additions and subtractions of a fixnum and
-- a bignum: a limb is added to a magnitude, or taken from it.
use vicare_scheme.Base.{
  ℕ, suc, ◌+◌, ◌-◌, ◌*◌, ◌^◌, ◌<◌, ◌≤◌, ◌≡◌, sym, ◌∙◌, inl, inr, Bool, false, List, ◌++◌, arith,
  ◌==◌, ==_iff, if◌then◌else◌, Bool-cases, length, get_or, take, drop, set, length-take, take-all,
  All-take, take-append_of_length, length-append, length-drop, length-set, All-append, All-drop,
  All-set,
}
use vicare_scheme.Base.Int.{signed}
use vicare_scheme.Numerics.Words.{word_base, limit}
use vicare_scheme.Numerics.Limbs.{
  IsLimbs, weight, val, val-take-set, weight_pos, val-take_lt, val-lt-weight,
}
use vicare_scheme.Numerics.Magnitude.{IsBignum-Bounds, Holds-Computes, weight_pred, top_split}
use vicare_scheme.Numerics.Mpn.{Mpn, Fresh}
use vicare_scheme.Numerics.Bignum.{
  Block, fixnum, Outcome, returned, aborted, verified, first_word, count_of, digits_of, magnitude,
  IsBignum, Computes,
}
use vicare_scheme.Numerics.Normalize.{make_integer, make_integer-Computes, zero-Computes, val_nil}

module _ (gmp : Mpn) (fresh : Fresh) where
  -- The sum is one limb longer where there is a carry; the block always has room for it.
  unfoldable pub add_limb : Bool → Block → ℕ → Outcome
  add_limb sign y n =
      let k = count_of y in
      let (sum, carry) = gmp.add_1 (digits_of y) n in
      let block = sum ++ drop k (fresh.block (k + 1)) in
      if carry == 0
      then verified (record { first = first_word k sign; limbs = block })
      else verified (record { first = first_word (k + 1) sign; limbs = set block k 1 })

  unfoldable pub sub_limb : Bool → Block → ℕ → Outcome
  unfolding make_integer
  sub_limb sign y n =
      let k = count_of y in
      let (difference, borrow) = gmp.sub_1 (digits_of y) n in
      let size = if get_or difference (k - 1) 0 == 0 then k - 1 else k in
      if borrow == 0
      then (if size == 0 then returned (fixnum 0) else make_integer sign size difference)
      else aborted

-- A difference of one limb drops at most the last limb of a normal magnitude.
module _ (s : Bool) (k : ℕ) (r : List ℕ) (width : length r ≡ k) (words : IsLimbs r) where
  whole : val (take k r) ≡ val r
  whole = rw (take-all k r (omega arith))

  trim_none :
      0 < k → k < 2 ^ 60 → 0 < get_or r (k - 1) 0 → Computes (signed s (val r)) (make_integer s k r)
  trim_none pos fits top = rw whole at (
      make_integer-Computes s k r (record {
        count_pos = pos;
        count_fits = fits;
        held = omega arith;
        words = words;
        last_limb_pos = top;
      }))

  -- Without the last limb, where that is zero.
  shorter : 0 < k → get_or r (k - 1) 0 ≡ 0 → val (take (k - 1) r) ≡ val r
  shorter pos zeros =
      let split = rw zeros at (top_split k r pos (omega arith)) in omega (arith, split, whole)

  next_limb_pos :
      (m n : ℕ)
      → 0 < k - 1
      → get_or r (k - 1) 0 ≡ 0
      → weight (k - 1) ≤ m
      → val r + n ≡ m
      → n ≤ 2 ^ 60
      → 0 < get_or r (k - 1 - 1) 0
  next_limb_pos m n pos zeros low sum small = elim (Bool-cases (get_or r (k - 1 - 1) 0 == 0)) [
    | inr top ↦ ground arith
    | inl none_left ↦
        let split = rw ((==_iff _ 0).0 none_left) at (top_split (k - 1) r pos (omega arith)) in
        absurd (
          omega (
            arith,
            split,
            shorter (omega arith) zeros,
            val-take_lt (k - 1 - 1) r words (omega arith),
            weight_pred (k - 1) pos,
            weight_pos (k - 1 - 1),
          ))
  ]

  trim_once :
      (m n : ℕ)
      → 0 < k
      → k < 2 ^ 60
      → weight (k - 1) ≤ m
      → val r + n ≡ m
      → n ≤ 2 ^ 60
      → (let size = if get_or r (k - 1) 0 == 0 then k - 1 else k in
          Computes
            (signed s (val r))
            (if size == 0 then returned (fixnum 0) else make_integer s size r))
  trim_once m n pos fits low sum small = elim (Bool-cases (get_or r (k - 1) 0 == 0)) [
    | inr top ↦
        let some_left : (k == 0) ≡ false = ground arith in
        rw (top, some_left) (trim_none pos fits (ground arith))
    | inl zeros ↦
        let top : get_or r (k - 1) 0 ≡ 0 = (==_iff _ 0).0 zeros in
        rw zeros (elim (Bool-cases (k - 1 == 0)) [
          | inl none_left ↦
              let e : k - 1 ≡ 0 = (==_iff _ 0).0 none_left in
              let nothing = rw e at (shorter pos top) in
              rw none_left (zero-Computes s (val r) (sym nothing ∙ val_nil r))
          | inr left ↦
              rw (left, ← shorter pos top)
                (make_integer-Computes s (k - 1) r (record {
                  count_pos = ground arith;
                  count_fits = omega arith;
                  held = omega arith;
                  words = words;
                  last_limb_pos = next_limb_pos m n (ground arith) top low sum small;
                }))
        ])
  ]

-- A sum, its carry and the spare word above it, packed as the code packs them.
module _ (s : Bool) (k carry m : ℕ) (sum spare : List ℕ) (width : length sum ≡ k)
    (room : length spare ≡ 1) (sum_limbs : IsLimbs sum) (spare_limbs : IsLimbs spare)
    (total : val sum + weight k * carry ≡ m) (pos : 0 < k) (fits : k + 1 < 2 ^ 60)
    (lower : weight (k - 1) ≤ m) (large : limit s < m) where
  block_length : length (sum ++ spare) ≡ k + 1
  block_length = omega (arith, length-append sum spare)

  sum-spare-IsLimbs : IsLimbs (sum ++ spare)
  sum-spare-IsLimbs = All-append (λ l. l < word_base) sum spare sum_limbs spare_limbs

  front : take k (sum ++ spare) ≡ sum
  front = take-append_of_length k sum spare width

  pub plain_sum :
      carry ≡ 0
      → Computes (signed s m) (verified (record { first = first_word k s; limbs = sum ++ spare }))
  plain_sum none_carried = Holds-Computes (record {
    count_pos = pos;
    count_fits = omega arith;
    held = omega (arith, block_length);
    words = sum-spare-IsLimbs;
    number = let total' = rw none_carried at total in rw front (omega (arith, total'));
    lower = lower;
    large = large;
  })

  carried_number : carry ≡ 1 → val (take (k + 1) (set (sum ++ spare) k 1)) ≡ m
  carried_number one =
      let total' = rw one at total in
      let e : k + 1 ≡ suc k = omega arith in
      rw (e, val-take-set k (sum ++ spare) 1 (omega (arith, block_length)), front) total'

  carried_sum :
      carry ≡ 1
      → Computes
          (signed s m)
          (verified (record { first = first_word (k + 1) s; limbs = set (sum ++ spare) k 1 }))
  carried_sum one = Holds-Computes (record {
    count_pos = omega arith;
    count_fits = fits;
    held = omega (arith, block_length, length-set (sum ++ spare) k 1);
    words = All-set (λ l. l < word_base) (sum ++ spare) k 1 sum-spare-IsLimbs (omega arith);
    number = carried_number one;
    lower =
        let e : k + 1 - 1 ≡ k = omega arith in
        let total' = rw one at total in rw e (omega (arith, total'));
    large = large;
  })

  pub sum-Computes :
      carry ≤ 1
      → Computes (signed s m) (
          if carry == 0
          then verified (record { first = first_word k s; limbs = sum ++ spare })
          else verified (record { first = first_word (k + 1) s; limbs = set (sum ++ spare) k 1 }))
  sum-Computes most = elim (Bool-cases (carry == 0)) [
    | inl plain ↦ rw plain (plain_sum ((==_iff _ 0).0 plain))
    | inr carried ↦ rw carried (carried_sum (ground arith))
  ]

module _ (fresh : Fresh) where
  -- The word that a block has above the limbs of a sum.
  unfoldable pub spare_word : ℕ → List ℕ
  spare_word k = drop k (fresh.block (k + 1))

  pub length-spare_word : (k : ℕ) → length (spare_word k) ≡ 1
  unfolding spare_word
  length-spare_word k =
      omega (arith, length-drop k (fresh.block (k + 1)), fresh.length-block (k + 1))

  pub spare_word-IsLimbs : (k : ℕ) → IsLimbs (spare_word k)
  unfolding spare_word
  spare_word-IsLimbs k =
      All-drop (λ l. l < word_base) k (fresh.block (k + 1)) (fresh.block-IsLimbs (k + 1))

module _ (gmp : Mpn) (fresh : Fresh) where
  -- The sum of a bignum and a limb, with the sign that the caller gives it.
  pub add_limb-Computes :
      (s : Bool) (y : Block) (n : ℕ)
      → IsBignum y
      → n < word_base
      → count_of y + 1 < 2 ^ 60
      → limit s < magnitude y + n
      → Computes (signed s (magnitude y + n)) (add_limb gmp fresh s y n)
  unfolding add_limb spare_word
  add_limb-Computes s y n h small room large =
      let k = count_of y in
      let digits = digits_of y in
      let bounds = IsBignum-Bounds h in
      let wide : length digits ≡ k = length-take k y.limbs h.held in
      let limbs = All-take (λ l. l < word_base) k y.limbs h.words in
      let a = gmp.add_1-Adds digits n limbs (omega (arith, wide, h.count_pos)) small in
      let total = rw wide at a.total in
      let lower : weight (k - 1) ≤ magnitude y + n = omega (arith, bounds.lower) in
      sum-Computes s k _ _ _ (spare_word fresh k) (a.width ∙ wide) (length-spare_word fresh k)
        a.words (spare_word-IsLimbs fresh k) total h.count_pos room lower large a.carry

  -- The difference of a bignum and a limb that it is not less than.
  pub sub_limb-Computes :
      (s : Bool) (y : Block) (n : ℕ)
      → IsBignum y
      → n ≤ 2 ^ 60
      → n ≤ magnitude y
      → Computes (signed s (magnitude y - n)) (sub_limb gmp fresh s y n)
  unfolding sub_limb
  sub_limb-Computes s y n h small below =
      let k = count_of y in
      let digits = digits_of y in
      let bounds = IsBignum-Bounds h in
      let wide : length digits ≡ k = length-take k y.limbs h.held in
      let limbs = All-take (λ l. l < word_base) k y.limbs h.words in
      let d = gmp.sub_1-Subtracts digits n limbs (omega (arith, wide, h.count_pos)) (omega arith) in
      let difference = rw wide at d.difference in
      let upper = rw (d.width ∙ wide) at (val-lt-weight (gmp.sub_1 digits n).0 d.words) in
      elim (Bool-cases ((gmp.sub_1 digits n).1 == 0)) [
        | inl plain ↦
            let sum = rw ((==_iff _ 0).0 plain) at difference in
            let e : val (gmp.sub_1 digits n).0 ≡ magnitude y - n = omega (arith, sum) in
            rw plain (
              rw e at (
                trim_once s k (gmp.sub_1 digits n).0 (d.width ∙ wide) d.words (magnitude y) n
                  h.count_pos h.count_fits bounds.lower (omega (arith, sum)) small))
        | inr borrowed ↦
            let one : (gmp.sub_1 digits n).1 ≡ 1 = ground (arith, d.borrow) in
            absurd (omega (arith, rw one at difference, upper))
      ]
