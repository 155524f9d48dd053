-- ===== src/Numerics/Mpn/Reference.antt =====
-- The laws that are asked of GMP can be met: an implementation by division, and a fresh block of
-- zeros.
use vicare_scheme.Base.{
  ℕ, zero, suc, ◌+◌, ◌-◌, ◌*◌, ◌/◌, ◌%◌, ◌<◌, ◌≤◌, ◌≡◌, refl, List, [], ◌∷◌, arith, length,
  replicate, length-replicate,
}
use vicare_scheme.Numerics.Words.{word_base}
use vicare_scheme.Numerics.Limbs.{IsLimbs, weight, val, weight-ge_base, weight_le, val-lt-weight}
use vicare_scheme.Numerics.Mpn.{Adds, Subtracts, Scales, Multiplies, Mpn, Fresh}

-- The low limbs of a number, and what is above them.
unfoldable pub to_limbs : ℕ → ℕ → List ℕ
to_limbs zero v = []
to_limbs (suc n) v = (v % word_base) ∷ to_limbs n (v / word_base)

unfoldable pub above : ℕ → ℕ → ℕ
above zero v = v
above (suc n) v = above n (v / word_base)

pub length-to_limbs : (n v : ℕ) → length (to_limbs n v) ≡ n
unfolding to_limbs
length-to_limbs zero v = refl
length-to_limbs (suc n) v = omega (arith, length-to_limbs n (v / word_base))

pub to_limbs-IsLimbs : (n v : ℕ) → IsLimbs (to_limbs n v)
unfolding to_limbs
to_limbs-IsLimbs zero v = tt
to_limbs-IsLimbs (suc n) v = (omega arith, to_limbs-IsLimbs n (v / word_base))

pub val-to_limbs : (n v : ℕ) → val (to_limbs n v) + weight n * above n v ≡ v
unfolding to_limbs above val weight
val-to_limbs zero v = omega arith
val-to_limbs (suc n) v = omega (arith, val-to_limbs n (v / word_base))

pub quotient_lt : (w q b v : ℕ) → w * q ≤ v → v < w * b → q < b
quotient_lt w q b v le lt = grind arith

pub above-lt : (n v b : ℕ) → v < weight n * b → above n v < b
above-lt n v b h = quotient_lt (weight n) (above n v) b v (omega (arith, val-to_limbs n v)) h

-- A sum of that many limbs and a carry.
unfoldable pub split : List ℕ → ℕ → List ℕ × ℕ
split xs v = (to_limbs (length xs) v, above (length xs) v)

pub split-Adds : (xs : List ℕ) (v : ℕ) → v < weight (length xs) * 2 → Adds xs v (split xs v)
unfolding split
split-Adds xs v h = record {
  width = length-to_limbs (length xs) v;
  words = to_limbs-IsLimbs (length xs) v;
  carry = omega (arith, above-lt (length xs) v 2 h);
  total = val-to_limbs (length xs) v;
}

pub product_lt : (a b w c : ℕ) → a < w → b < c → a * b < w * c
product_lt a b w c h k = grind arith

pub split-Scales :
    (xs : List ℕ) (c : ℕ) → IsLimbs xs → c < word_base → Scales xs c (split xs (val xs * c))
unfolding split
split-Scales xs c h w =
    let n = length xs in
    let v = val xs * c in
    record {
      width = length-to_limbs n v;
      words = to_limbs-IsLimbs n v;
      high =
          above-lt n v word_base
            (product_lt (val xs) c (weight n) word_base (val-lt-weight xs h) w);
      product = val-to_limbs n v;
    }

-- The difference is taken below the weight above the limbs, whose digit is then the lack of a borrow.
unfoldable pub take_away : List ℕ → ℕ → List ℕ × ℕ
take_away xs c =
    let v = val xs + weight (length xs) - c in (to_limbs (length xs) v, 1 - above (length xs) v)

borrow_of : (w a d c x : ℕ) → a ≤ 1 → d + w * a ≡ x + w - c → c ≤ w + x → d + c ≡ x + w * (1 - a)
borrow_of w zero d c x most e le = omega arith
borrow_of w (suc zero) d c x most e le = omega arith
borrow_of w (suc (suc a)) d c x most e le = absurd (omega arith)

pub take_away-Subtracts :
    (xs : List ℕ) (c : ℕ) → IsLimbs xs → c ≤ weight (length xs) → Subtracts xs c (take_away xs c)
unfolding take_away
take_away-Subtracts xs c h le =
    let n = length xs in
    let v : ℕ = val xs + weight n - c in
    let most : above n v ≤ 1 = omega (arith, above-lt n v 2 (omega (arith, val-lt-weight xs h))) in
    record {
      width = length-to_limbs n v;
      words = to_limbs-IsLimbs n v;
      borrow = omega arith;
      difference =
          borrow_of (weight n) (above n v) _ c (val xs) most (val-to_limbs n v) (omega arith);
    }

pub weight_add : (n m : ℕ) → weight (n + m) ≡ weight n * weight m
unfolding weight
weight_add zero m = let e : 0 + m ≡ m = omega arith in rw e (omega arith)
weight_add (suc n) m =
    let e : suc n + m ≡ suc (n + m) = omega arith in rw e (omega (arith, weight_add n m))

unfoldable pub multiply : List ℕ → List ℕ → List ℕ
multiply xs ys = to_limbs (length xs + length ys) (val xs * val ys)

pub multiply-Multiplies :
    (xs ys : List ℕ) → IsLimbs xs → IsLimbs ys → Multiplies xs ys (multiply xs ys)
unfolding multiply
multiply-Multiplies xs ys hx hy =
    let n = length xs + length ys in
    let v = val xs * val ys in
    let small : v < weight n * 1 = rw (weight_add (length xs) (length ys)) (
      omega (
        arith,
        product_lt (val xs) (val ys) (weight (length xs)) (weight (length ys)) (val-lt-weight xs hx)
            (val-lt-weight ys hy),
      )) in
    let none_above : above n v ≡ 0 = omega (arith, above-lt n v 1 small) in
    record {
      width = length-to_limbs n v;
      words = to_limbs-IsLimbs n v;
      product = let e = rw none_above at (val-to_limbs n v) in omega (arith, e);
    }

pub below_weight : (xs : List ℕ) (c : ℕ) → 0 < length xs → c < word_base → c < weight (length xs)
below_weight xs c pos h = omega (arith, weight-ge_base (length xs) pos)

pub shorter_lt : (xs ys : List ℕ) → IsLimbs ys → length ys ≤ length xs → val ys < weight (length xs)
shorter_lt xs ys h le = omega (arith, val-lt-weight ys h, weight_le (length ys) (length xs) le)

abbrev pub reference : Mpn
reference = record {
  add_1 = λ xs c. split xs (val xs + c);
  sub_1 = take_away;
  add = λ xs ys. split xs (val xs + val ys);
  sub = λ xs ys. take_away xs (val ys);
  mul_1 = λ xs c. split xs (val xs * c);
  mul = multiply;
  add_1-Adds =
      λ xs c h pos w. split-Adds xs _ (omega (arith, val-lt-weight xs h, below_weight xs c pos w));
  sub_1-Subtracts =
      λ xs c h pos w. take_away-Subtracts xs c h (omega (arith, below_weight xs c pos w));
  add-Adds = λ xs ys h k pos le.
      split-Adds xs _ (omega (arith, val-lt-weight xs h, shorter_lt xs ys k le));
  sub-Subtracts =
      λ xs ys h k pos le. take_away-Subtracts xs (val ys) h (omega (arith, shorter_lt xs ys k le));
  mul_1-Scales = λ xs c h pos w. split-Scales xs c h w;
  mul-Multiplies = λ xs ys h k pos le. multiply-Multiplies xs ys h k;
}

pub zeros-IsLimbs : (n : ℕ) → IsLimbs (replicate n 0)
zeros-IsLimbs zero = tt
zeros-IsLimbs (suc n) = (omega arith, zeros-IsLimbs n)

abbrev pub zero_fresh : Fresh
zero_fresh = record {
  block = λ n. replicate n 0;
  length-block = λ n. length-replicate n 0;
  block-IsLimbs = zeros-IsLimbs;
}
