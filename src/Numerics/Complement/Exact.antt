-- ===== src/Numerics/Complement/Exact.antt =====
-- The complement of the integer `n` is `-1 - n`.
use vicare_scheme.Base.{
  ℕ, zero, suc, ◌+◌, ◌-◌, ◌*◌, ◌^◌, ◌<◌, ◌≤◌, ◌≡◌, refl, sym, ◌∙◌, inl, inr, Bool, true, false,
  List, [], ◌∷◌, ◌++◌, arith, ◌==◌, ==_iff, Bool-cases, length, replicate, length-take, All-take,
  take-all, length-append, length-replicate, All-append,
}
use vicare_scheme.Base.Int.{◌-ℤ◌, -ℤ_signed, signed, signed-+ℤ_same, signed-+ℤ_other}
use vicare_scheme.Numerics.Words.{word_base, limit}
use vicare_scheme.Numerics.Limbs.{IsLimbs, weight, val, val-append}
use vicare_scheme.Numerics.Magnitude.{Holds-Computes, IsBignum-Bounds}
use vicare_scheme.Numerics.Mpn.Reference.{zeros-IsLimbs}
use vicare_scheme.Numerics.Bignum.{
  Block, bignum, returned, verified, verify_bignum, IsBignum, Computes, first_word, count_of,
  digits_of, magnitude, negative_bit, block_int,
}
use vicare_scheme.Numerics.Product.Exact.{all_limbs}
use vicare_scheme.Numerics.Complement.{pred_limbs, all_ones, succ_limbs, bnlognot}

val-pred_limbs : (xs : List ℕ) → IsLimbs xs → 0 < val xs → val (pred_limbs xs) + 1 ≡ val xs
unfolding pred_limbs val
val-pred_limbs [] h pos = absurd (omega arith)
val-pred_limbs (d ∷ rest) h pos = elim (Bool-cases (d == 0)) [
  | inl zeros ↦
      let e : d ≡ 0 = (==_iff d 0).0 zeros in
      rw zeros (omega (arith, e, val-pred_limbs rest h.1 (omega (arith, e))))
  | inr other ↦ rw other (ground arith)
]

length-pred_limbs : (xs : List ℕ) → length (pred_limbs xs) ≡ length xs
unfolding pred_limbs
length-pred_limbs [] = refl
length-pred_limbs (d ∷ rest) = elim (Bool-cases (d == 0)) [
  | inl zeros ↦ rw zeros (omega (arith, length-pred_limbs rest))
  | inr other ↦ rw other refl
]

pred_limbs-IsLimbs : (xs : List ℕ) → IsLimbs xs → IsLimbs (pred_limbs xs)
unfolding pred_limbs
pred_limbs-IsLimbs [] h = tt
pred_limbs-IsLimbs (d ∷ rest) h = elim (Bool-cases (d == 0)) [
  | inl zeros ↦ rw zeros (omega arith, pred_limbs-IsLimbs rest h.1)
  | inr other ↦ rw other (let k = h.0 in omega arith, h.1)
]

val-all_ones : (xs : List ℕ) → all_ones xs ≡ true → val xs + 1 ≡ weight (length xs)
unfolding all_ones val weight
val-all_ones [] h = refl
val-all_ones (d ∷ rest) h = elim (Bool-cases (d == word_base - 1)) [
  | inl top ↦
      let e : d ≡ word_base - 1 = (==_iff d (word_base - 1)).0 top in
      omega (arith, e, val-all_ones rest (rw top at h))
  | inr other ↦ absurd (ground arith)
]

val-succ_limbs : (xs : List ℕ) → all_ones xs ≡ false → val (succ_limbs xs) ≡ val xs + 1
unfolding succ_limbs all_ones val
val-succ_limbs [] h = absurd (ground arith)
val-succ_limbs (d ∷ rest) h = elim (Bool-cases (d == word_base - 1)) [
  | inl top ↦
      let e : d ≡ word_base - 1 = (==_iff d (word_base - 1)).0 top in
      rw top (omega (arith, e, val-succ_limbs rest (rw top at h)))
  | inr other ↦ rw other (omega arith)
]

length-succ_limbs : (xs : List ℕ) → length (succ_limbs xs) ≡ length xs
unfolding succ_limbs
length-succ_limbs [] = refl
length-succ_limbs (d ∷ rest) = elim (Bool-cases (d == word_base - 1)) [
  | inl top ↦ rw top (omega (arith, length-succ_limbs rest))
  | inr other ↦ rw other refl
]

succ_limbs-IsLimbs : (xs : List ℕ) → IsLimbs xs → IsLimbs (succ_limbs xs)
unfolding succ_limbs
succ_limbs-IsLimbs [] h = tt
succ_limbs-IsLimbs (d ∷ rest) h = elim (Bool-cases (d == word_base - 1)) [
  | inl top ↦ rw top (omega arith, succ_limbs-IsLimbs rest h.1)
  | inr other ↦
      let k = h.0 in let ne : d < word_base - 1 = ground arith in rw other (omega arith, h.1)
]

val-zeros : (n : ℕ) → val (replicate n 0) ≡ 0
unfolding val
val-zeros zero = refl
val-zeros (suc n) = omega (arith, val-zeros n)

length-zeros : (n : ℕ) → length {A = ℕ} (replicate n 0) ≡ n
length-zeros n = length-replicate {A = ℕ} n 0

length-top_one : (n : ℕ) → length {A = ℕ} (replicate n 0 ++ 1 ∷ []) ≡ n + 1
length-top_one n = omega (arith, length-append {A = ℕ} (replicate n 0) (1 ∷ []), length-zeros n)

times_one : (w : ℕ) → 0 + w * val (1 ∷ []) ≡ w
unfolding val
times_one w = omega arith

val-top_one : (n : ℕ) → val (replicate n 0 ++ 1 ∷ []) ≡ weight n
val-top_one n =
    let split = val-append (replicate n 0) (1 ∷ []) in
    split ∙ rw (val-zeros n, length-zeros n) (times_one (weight n))

-- What the check of a block lets pass is returned as it is.
unverified :
    (s : Bool) (m : ℕ) (b : Block)
    → Computes (signed s m) (verified b)
    → Computes (signed s m) (returned (bignum b))
unfolding verified
unverified s m b h = elim (Bool-cases (verify_bignum b)) [
  | inl good ↦ rw good at h
  | inr bad ↦ absurd (rw bad at h)
]

limit_suc : (m : ℕ) → limit false < m → limit true < m + 1
unfolding limit
limit_suc m h = omega arith

module _ (x : Block) (h : IsBignum x) (room : count_of x + 1 < 2 ^ 60)
    (positive : negative_bit x.first ≡ false) where
  wide : length (digits_of x) ≡ count_of x
  wide = length-take (count_of x) x.limbs h.held

  digits : IsLimbs (digits_of x)
  digits = All-take (λ l. l < word_base) (count_of x) x.limbs h.words

  next_large : limit true < magnitude x + 1
  next_large = limit_suc (magnitude x) (rw positive at (IsBignum-Bounds h).large)

  one_longer :
      all_ones (digits_of x) ≡ true
      → Computes (signed true (magnitude x + 1)) (
          returned (
            bignum (record {
              first = first_word (count_of x + 1) true;
              limbs = replicate (count_of x) 0 ++ 1 ∷ [];
            })))
  one_longer ones =
      let n = count_of x in
      let out : List ℕ = replicate n 0 ++ 1 ∷ [] in
      let e : length out ≡ n + 1 = length-top_one n in
      let total : val out ≡ magnitude x + 1 =
        val-top_one n ∙ sym (rw wide at (val-all_ones (digits_of x) ones)) in
      unverified true (magnitude x + 1) _ (
        Holds-Computes (record {
          count_pos = omega arith;
          count_fits = room;
          held = omega (arith, e);
          words =
              All-append (λ l. l < word_base) (replicate n 0) (1 ∷ []) (zeros-IsLimbs n)
                (omega arith, tt);
          number = rw (take-all (n + 1) out (omega (arith, e))) total;
          lower = let k : n + 1 - 1 ≡ n = omega arith in rw k (omega (arith, total, val-top_one n));
          large = next_large;
        }))

  same_length :
      all_ones (digits_of x) ≡ false
      → Computes (signed true (magnitude x + 1)) (
          returned (
            bignum
              (record { first = first_word (count_of x) true; limbs = succ_limbs (digits_of x) })))
  same_length other =
      let out = succ_limbs (digits_of x) in
      let e = length-succ_limbs (digits_of x) in
      let bounds = IsBignum-Bounds h in
      unverified true (magnitude x + 1) _ (
        Holds-Computes (record {
          count_pos = h.count_pos;
          count_fits = omega arith;
          held = omega (arith, e, wide);
          words = succ_limbs-IsLimbs (digits_of x) digits;
          number =
              rw (take-all (count_of x) out (omega (arith, e, wide)))
                (val-succ_limbs (digits_of x) other);
          lower = omega (arith, bounds.lower);
          large = next_large;
        }))

-- `bnlognot` of a well-formed bignum of fewer than 2 ^ 31 limbs returns a well-formed integer, -1
-- less the integer of the bignum, and does not end the process.
pub bnlognot-Computes :
    (x : Block)
    → IsBignum x
    → count_of x < 2 ^ 31
    → Computes (signed true 1 -ℤ block_int x) (bnlognot x)
unfolding bnlognot
bnlognot-Computes x h counted = elim (Bool-cases (negative_bit x.first)) [
  | inr positive ↦
      rw
        (
          positive,
          -ℤ_signed (signed true 1) false (magnitude x),
          signed-+ℤ_same true 1 (magnitude x),
        )
        (elim (Bool-cases (all_ones (digits_of x))) [
          | inl ones ↦ rw ones (one_longer x h (omega arith) positive ones)
          | inr other ↦ rw other (same_length x h (omega arith) positive other)
        ])
  | inl minus ↦
      let bounds = IsBignum-Bounds h in
      let some_value : 1 ≤ magnitude x = omega (arith, bounds.large) in
      let wide = length-take (count_of x) x.limbs h.held in
      let limbs = All-take (λ l. l < word_base) (count_of x) x.limbs h.words in
      let less : val (pred_limbs (digits_of x)) ≡ magnitude x - 1 =
        omega (arith, val-pred_limbs (digits_of x) limbs some_value) in
      rw
        (
          minus,
          -ℤ_signed (signed true 1) true (magnitude x),
          signed-+ℤ_other false 1 (magnitude x) some_value,
          ← less,
        )
        (all_limbs false (count_of x) (pred_limbs (digits_of x))
          (length-pred_limbs (digits_of x) ∙ wide) (pred_limbs-IsLimbs (digits_of x) limbs)
          h.count_fits)
]
