-- ===== src/Numerics/Limbs.antt =====
-- Limb sequences, least significant limb first, and the numbers that they stand for.
use vicare_scheme.Base.{
  ℕ, zero, suc, ◌+◌, ◌*◌, ◌<◌, ◌≤◌, ◌≡◌, List, [], ◌∷◌, ◌++◌, arith, length, get_or, set, take, All,
}
use vicare_scheme.Numerics.Words.{word_base}

abbrev pub IsLimbs : List ℕ → Type 0
IsLimbs = All (λ l. l < word_base)

-- The weight of the limb at an index.
unfoldable pub weight : ℕ → ℕ
weight zero = 1
weight (suc n) = word_base * weight n

unfoldable pub val : List ℕ → ℕ
val [] = 0
val (l ∷ ls) = l + word_base * val ls

pub weight_pos : (n : ℕ) → 0 < weight n
unfolding weight
weight_pos zero = omega arith
weight_pos (suc n) = omega (arith, weight_pos n)

pub val-lt-weight : (xs : List ℕ) → IsLimbs xs → val xs < weight (length xs)
unfolding val weight
val-lt-weight [] h = omega arith
val-lt-weight (x ∷ xs) h = omega (arith, val-lt-weight xs h.1)

pub val-append : (xs ys : List ℕ) → val (xs ++ ys) ≡ val xs + weight (length xs) * val ys
unfolding val weight
val-append [] ys = omega arith
val-append (x ∷ xs) ys = omega (arith, val-append xs ys)

-- The top limb of the first `n + 1`.
pub val-take-suc :
    (n : ℕ) (xs : List ℕ)
    → n < length xs
    → val (take (suc n) xs) ≡ val (take n xs) + weight n * get_or xs n 0
unfolding val weight
val-take-suc n [] h = absurd (omega arith)
val-take-suc zero (x ∷ xs) h = omega arith
val-take-suc (suc n) (x ∷ xs) h = omega (arith, val-take-suc n xs (omega arith))

pub val-take_lt : (n : ℕ) (xs : List ℕ) → IsLimbs xs → n ≤ length xs → val (take n xs) < weight n
unfolding val weight
val-take_lt zero xs h p = omega arith
val-take_lt (suc n) [] h p = absurd (omega arith)
val-take_lt (suc n) (x ∷ xs) h p = omega (arith, val-take_lt n xs h.1 (omega arith))

pub get_or-IsLimb : (xs : List ℕ) (i : ℕ) → IsLimbs xs → get_or xs i 0 < word_base
get_or-IsLimb [] i h = omega arith
get_or-IsLimb (x ∷ xs) zero h = h.0
get_or-IsLimb (x ∷ xs) (suc i) h = get_or-IsLimb xs i h.1

pub val-take_one : (limbs : List ℕ) → 1 ≤ length limbs → val (take 1 limbs) ≡ get_or limbs 0 0
unfolding val weight
val-take_one limbs h = omega (arith, val-take-suc 0 limbs h)

-- A write of the limb above the first `n`.
pub val-take-set :
    (n : ℕ) (xs : List ℕ) (v : ℕ)
    → n < length xs
    → val (take (suc n) (set xs n v)) ≡ val (take n xs) + weight n * v
unfolding val weight
val-take-set n [] v h = absurd (omega arith)
val-take-set zero (x ∷ xs) v h = omega arith
val-take-set (suc n) (x ∷ xs) v h = omega (arith, val-take-set n xs v (omega arith))

pub val-set :
    (xs : List ℕ) (i v : ℕ)
    → i < length xs
    → val (set xs i v) + weight i * get_or xs i 0 ≡ val xs + weight i * v
unfolding val weight
val-set [] i v h = absurd (omega arith)
val-set (x ∷ xs) zero v h = omega arith
val-set (x ∷ xs) (suc i) v h = omega (arith, val-set xs i v (omega arith))

-- A number below the weight of a limb has zero there.
pub get_or-eq-zero : (i : ℕ) (xs : List ℕ) → val xs < weight i → get_or xs i 0 ≡ 0
unfolding val weight
get_or-eq-zero i [] h = omega arith
get_or-eq-zero zero (x ∷ xs) h = omega arith
get_or-eq-zero (suc i) (x ∷ xs) h = get_or-eq-zero i xs (omega arith)

pub weight_le : (i j : ℕ) → i ≤ j → weight i ≤ weight j
unfolding weight
weight_le zero j h = weight_pos j
weight_le (suc i) zero h = absurd (omega arith)
weight_le (suc i) (suc j) h = omega (arith, weight_le i j (omega arith))

pub weight_lt : (i j : ℕ) → i < j → weight i < weight j
unfolding weight
weight_lt i zero h = absurd (omega arith)
weight_lt i (suc j) h = omega (arith, weight_le i j (omega arith), weight_pos j)

pub weight-ge_base : (n : ℕ) → 0 < n → word_base ≤ weight n
unfolding weight
weight-ge_base zero h = absurd (omega arith)
weight-ge_base (suc n) h = omega (arith, weight_pos n)
