-- ===== src/Numerics/Complement.antt =====
-- `ikrt_bnlognot` of src/ikarus-numerics.c, on the limbs of a bignum. Its loops count limbs with an `int`,
-- which overflows from 2 ^ 31 limbs on: the definitions are for fewer.
pub mod Exact
use vicare_scheme.Base.{
  ℕ, ◌+◌, ◌-◌, ◌≡◌, Bool, true, false, ◌&&◌, List, [], ◌∷◌, ◌++◌, ◌==◌, if◌then◌else◌, replicate,
}
use vicare_scheme.Numerics.Words.{word_base}
use vicare_scheme.Numerics.Bignum.{
  Block, bignum, Outcome, returned, first_word, count_of, digits_of, negative_bit,
}
use vicare_scheme.Numerics.Normalize.{normalize}

-- The loops of the branch of a negative operand: low zeros become ones, and the first other limb is
-- decremented.
unfoldable pub pred_limbs : List ℕ → List ℕ
pred_limbs [] = []
pred_limbs (d ∷ rest) = if d == 0 then (word_base - 1) ∷ pred_limbs rest else (d - 1) ∷ rest

-- The search of the other branch: whether every limb is all ones.
unfoldable pub all_ones : List ℕ → Bool
all_ones [] = true
all_ones (d ∷ rest) = d == word_base - 1 && all_ones rest

-- Low limbs of ones become zeros, and the first other limb is incremented.
unfoldable pub succ_limbs : List ℕ → List ℕ
succ_limbs [] = []
succ_limbs (d ∷ rest) = if d == word_base - 1 then 0 ∷ succ_limbs rest else (d + 1) ∷ rest

unfoldable pub bnlognot : Block → Outcome
bnlognot x =
    let n = count_of x in
    if negative_bit x.first
    then normalize n false (pred_limbs (digits_of x))
    else if all_ones (digits_of x)
    then returned
        (bignum (record { first = first_word (n + 1) true; limbs = replicate n 0 ++ 1 ∷ [] }))
    else returned (bignum (record { first = first_word n true; limbs = succ_limbs (digits_of x) }))
