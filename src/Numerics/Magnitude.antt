-- ===== src/Numerics/Magnitude.antt =====
-- How large a well-formed bignum is, from its limb count.
use vicare_scheme.Base.{
  ℕ, zero, suc, ◌-◌, ◌*◌, ◌+◌, ◌^◌, ◌<◌, ◌≤◌, ◌≡◌, inl, inr, Bool, true, false, List, arith, ◌==◌,
  ==_iff, Bool-cases, length, get_or, take,
}
use vicare_scheme.Numerics.Words.{word_base, limit}
use vicare_scheme.Numerics.Limbs.{
  IsLimbs, weight, val, weight-ge_base, val-take_one, val-take-suc, val-take_lt,
}
use vicare_scheme.Base.Int.{signed}
use vicare_scheme.Numerics.Normalize.{bignum-Computes}
use vicare_scheme.Numerics.Bignum.{
  Block, verified, Computes, first_word, count_of, magnitude, IsBignum, negative_bit, last_limb,
}

pub le-mul_pos : (a b : ℕ) → 0 < b → a ≤ a * b
le-mul_pos a b h = grind arith

-- A well-formed bignum lies between the weight of its last limb and the weight above it.
pub record Bounds (k m : ℕ) (s : Bool) : Type 0 where
  pub lower : weight (k - 1) ≤ m
  pub upper : m < weight k
  pub large : limit s < m

pub top_split :
    (k : ℕ) (xs : List ℕ)
    → 0 < k
    → k ≤ length xs
    → val (take k xs) ≡ val (take (k - 1) xs) + weight (k - 1) * get_or xs (k - 1) 0
top_split zero xs pos h = absurd (omega arith)
top_split (suc j) xs pos h =
    let e : suc j - 1 ≡ j = omega arith in rw e (val-take-suc j xs (omega arith))

pub weight_pred : (n : ℕ) → 0 < n → weight n ≡ word_base * weight (n - 1)
unfolding weight
weight_pred zero h = absurd (omega arith)
weight_pred (suc n) h = let e : suc n - 1 ≡ n = omega arith in rw e

pub limit-lt-base : (s : Bool) → limit s < word_base
unfolding limit
limit-lt-base false = omega arith
limit-lt-base true = omega arith

large-magnitude :
    (y : Block)
    → IsBignum y
    → weight (count_of y - 1) ≤ magnitude y
    → limit (negative_bit y.first) < magnitude y
large-magnitude y h lower = elim (Bool-cases (count_of y == 1)) [
  | inl one ↦
      let e : count_of y ≡ 1 = (==_iff _ 1).0 one in
      let top : last_limb y ≡ get_or y.limbs 0 0 = rw e in
      let single : 1 ≤ length y.limbs = omega (arith, h.held, e) in
      rw e (omega (arith, h.large e, top, val-take_one y.limbs single))
  | inr many ↦
      let tall : 0 < count_of y - 1 = ground (arith, h.count_pos) in
      omega (arith, weight-ge_base (count_of y - 1) tall, limit-lt-base (negative_bit y.first))
]

pub IsBignum-Bounds :
    {y : Block} → IsBignum y → Bounds (count_of y) (magnitude y) (negative_bit y.first)
IsBignum-Bounds {y} h =
    let split = top_split (count_of y) y.limbs h.count_pos h.held in
    let low : weight (count_of y - 1) ≤ magnitude y = omega (
      arith,
      split,
      le-mul_pos (weight (count_of y - 1)) (get_or y.limbs (count_of y - 1) 0) h.last_limb_pos,
    ) in
    record {
      lower = low;
      upper = val-take_lt (count_of y) y.limbs h.words h.held;
      large = large-magnitude y h low;
    }

-- A number of at least the weight of its last limb has a nonzero last limb.
pub last_pos_of_lower :
    (k : ℕ) (xs : List ℕ)
    → 0 < k
    → k ≤ length xs
    → IsLimbs xs
    → weight (k - 1) ≤ val (take k xs)
    → 0 < get_or xs (k - 1) 0
last_pos_of_lower k xs pos held words low = elim (Bool-cases (get_or xs (k - 1) 0 == 0)) [
  | inr top ↦ ground arith
  | inl zeros ↦
      let split = rw ((==_iff _ 0).0 zeros) at (top_split k xs pos held) in
      absurd (omega (arith, split, val-take_lt (k - 1) xs words (omega arith)))
]

-- A block that holds a number in range, with the first word that `make_integer` writes.
pub record Holds (k : ℕ) (s : Bool) (m : ℕ) (limbs : List ℕ) : Type 0 where
  pub count_pos : 0 < k
  pub count_fits : k < 2 ^ 60
  pub held : k ≤ length limbs
  pub words : IsLimbs limbs
  pub number : val (take k limbs) ≡ m
  pub lower : weight (k - 1) ≤ m
  pub large : limit s < m

pub Holds-Computes :
    {k m : ℕ} {s : Bool} {limbs : List ℕ}
    → Holds k s m limbs
    → Computes (signed s m) (verified (record { first = first_word k s; limbs = limbs }))
Holds-Computes {k} {m} {s} {limbs} h = rw h.number at (
    bignum-Computes s k limbs
      (record {
        count_pos = h.count_pos;
        count_fits = h.count_fits;
        held = h.held;
        words = h.words;
        last_limb_pos = last_pos_of_lower k limbs h.count_pos h.held h.words (rw h.number h.lower);
      })
      (λ one.
        let single = rw one at h.number in
        omega (arith, h.large, single, val-take_one limbs (omega (arith, one, h.held)))))
