-- ===== src/Numerics/Mpn.antt =====
-- What src/ikarus-numerics.c calls of GMP's low-level functions. GMP is not part of the
-- repository: its functions are fields, with the laws that its manual documents.
-- A limb count argument is the length of the list that is passed.
pub mod Reference
use vicare_scheme.Base.{ℕ, ◌+◌, ◌*◌, ◌<◌, ◌≤◌, ◌≡◌, List, length}
use vicare_scheme.Numerics.Words.{word_base}
use vicare_scheme.Numerics.Limbs.{IsLimbs, weight, val}

-- A result of as many limbs as the first operand, and a carry of weight one above them.
pub record Adds (xs : List ℕ) (sum : ℕ) (out : List ℕ × ℕ) : Type 0 where
  pub width : length out.0 ≡ length xs
  pub words : IsLimbs out.0
  pub carry : out.1 ≤ 1
  pub total : val out.0 + weight (length xs) * out.1 ≡ sum

-- A difference modulo the weight above the operands, and a borrow.
pub record Subtracts (xs : List ℕ) (taken : ℕ) (out : List ℕ × ℕ) : Type 0 where
  pub width : length out.0 ≡ length xs
  pub words : IsLimbs out.0
  pub borrow : out.1 ≤ 1
  pub difference : val out.0 + taken ≡ val xs + weight (length xs) * out.1

pub record Scales (xs : List ℕ) (c : ℕ) (out : List ℕ × ℕ) : Type 0 where
  pub width : length out.0 ≡ length xs
  pub words : IsLimbs out.0
  pub high : out.1 < word_base
  pub product : val out.0 + weight (length xs) * out.1 ≡ val xs * c

pub record Multiplies (xs ys : List ℕ) (out : List ℕ) : Type 0 where
  pub width : length out ≡ length xs + length ys
  pub words : IsLimbs out
  pub product : val out ≡ val xs * val ys

pub record Mpn : Type 0 where
  pub add_1 : List ℕ → ℕ → List ℕ × ℕ
  pub sub_1 : List ℕ → ℕ → List ℕ × ℕ
  pub add : List ℕ → List ℕ → List ℕ × ℕ
  pub sub : List ℕ → List ℕ → List ℕ × ℕ
  pub mul_1 : List ℕ → ℕ → List ℕ × ℕ
  pub mul : List ℕ → List ℕ → List ℕ
  pub add_1-Adds :
      (xs : List ℕ) (c : ℕ)
      → IsLimbs xs
      → 0 < length xs
      → c < word_base
      → Adds xs (val xs + c) (add_1 xs c)
  pub sub_1-Subtracts :
      (xs : List ℕ) (c : ℕ)
      → IsLimbs xs
      → 0 < length xs
      → c < word_base
      → Subtracts xs c (sub_1 xs c)
  pub add-Adds :
      (xs ys : List ℕ)
      → IsLimbs xs
      → IsLimbs ys
      → 0 < length ys
      → length ys ≤ length xs
      → Adds xs (val xs + val ys) (add xs ys)
  pub sub-Subtracts :
      (xs ys : List ℕ)
      → IsLimbs xs
      → IsLimbs ys
      → 0 < length ys
      → length ys ≤ length xs
      → Subtracts xs (val ys) (sub xs ys)
  pub mul_1-Scales :
      (xs : List ℕ) (c : ℕ) → IsLimbs xs → 0 < length xs → c < word_base → Scales xs c (mul_1 xs c)
  pub mul-Multiplies :
      (xs ys : List ℕ)
      → IsLimbs xs
      → IsLimbs ys
      → 0 < length ys
      → length ys ≤ length xs
      → Multiplies xs ys (mul xs ys)

-- The words that a fresh memory block holds. The allocator does not initialise them.
pub record Fresh : Type 0 where
  pub block : ℕ → List ℕ
  pub length-block : (n : ℕ) → length (block n) ≡ n
  pub block-IsLimbs : (n : ℕ) → IsLimbs (block n)
