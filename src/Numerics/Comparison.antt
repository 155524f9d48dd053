-- ===== src/Numerics/Comparison.antt =====
-- `ikrt_bnbncomp` of src/ikarus-numerics.c.
pub mod Order
use vicare_scheme.Base.{ℕ, zero, suc, List, ltb, if◌then◌else◌, get_or}
use vicare_scheme.Numerics.Words.{fix, negate}
use vicare_scheme.Numerics.Bignum.{Block, count_of, negative_bit}

-- The limbs from the top, with the word to return where the first operand has the lesser limb, and
-- where it has the greater.
unfoldable pub compare_limbs : ℕ → List ℕ → List ℕ → ℕ → ℕ → ℕ
compare_limbs zero xs ys less greater = 0
compare_limbs (suc i) xs ys less greater =
    let rest = compare_limbs i xs ys less greater in
    if ltb (get_or xs i 0) (get_or ys i 0)
    then less
    else if ltb (get_or ys i 0) (get_or xs i 0)
    then greater
    else rest

-- The branch of two operands of one sign.
unfoldable pub compare_magnitudes : Block → Block → ℕ → ℕ → ℕ
compare_magnitudes x y less greater =
    if ltb (count_of x) (count_of y)
    then less
    else if ltb (count_of y) (count_of x)
    then greater
    else compare_limbs (count_of x) x.limbs y.limbs less greater

-- The tagged fixnum -1, 0 or 1.
unfoldable pub bnbncomp : Block → Block → ℕ
bnbncomp x y =
    if negative_bit x.first
    then (if negative_bit y.first
        then compare_magnitudes x y (fix 1) (fix (negate 1))
        else fix (negate 1))
    else (if negative_bit y.first then fix 1 else compare_magnitudes x y (fix (negate 1)) (fix 1))
