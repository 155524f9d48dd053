-- ===== src/Numerics/Fixnums.antt =====
-- The operations of src/ikarus-numerics.c on two fixnums, and the differences of a fixnum and a bignum.
use vicare_scheme.Base.{ℕ, ◌+◌, ◌^◌, ◌<◌}
use vicare_scheme.Base.Int.{◌+ℤ◌, ◌-ℤ◌, ◌*ℤ◌}
use vicare_scheme.Numerics.Words.{IsFixnum, fixnum_int}
use vicare_scheme.Numerics.Mpn.{Mpn, Fresh}
use vicare_scheme.Numerics.Bignum.{Block, IsBignum, Computes, count_of, block_int}
use vicare_scheme.Numerics.Addition.{fxfxplus}
use vicare_scheme.Numerics.Addition.Fixnums.{fxfxplus-Computes}
use vicare_scheme.Numerics.Subtraction.{fxfxminus, fxbnminus, bnfxminus}
use vicare_scheme.Numerics.Subtraction.Fixnums.{
  fxfxminus-Computes, fxbnminus-Computes, bnfxminus-Computes,
}
use vicare_scheme.Numerics.Product.{fxfxmult}
use vicare_scheme.Numerics.Product.Exact.{fxfxmult-Computes}

-- For every GMP and two fixnums, `fxfxplus`, `fxfxminus` and `fxfxmult` each return a well-formed
-- integer, the sum, the difference and the product, and do not end the process.
pub fixnums-Computes :
    (gmp : Mpn) (x y : ℕ)
    → IsFixnum x
    → IsFixnum y
    → Computes (fixnum_int x +ℤ fixnum_int y) (fxfxplus x y)
      × Computes (fixnum_int x -ℤ fixnum_int y) (fxfxminus x y)
      × Computes (fixnum_int x *ℤ fixnum_int y) (fxfxmult gmp x y)
fixnums-Computes gmp x y hx hy =
    (fxfxplus-Computes x y hx hy, fxfxminus-Computes x y hx hy, fxfxmult-Computes gmp x y hx hy)

-- For every GMP, every content of fresh memory, a fixnum and a well-formed bignum of less than 2 ^
-- 60 - 1 limbs, `fxbnminus` and `bnfxminus` each return a well-formed integer, the difference in
-- the one order and in the other, and do not end the process.
pub mixed_minus-Computes :
    (gmp : Mpn) (fresh : Fresh) (x : ℕ) (y : Block)
    → IsFixnum x
    → IsBignum y
    → count_of y + 1 < 2 ^ 60
    → Computes (fixnum_int x -ℤ block_int y) (fxbnminus gmp fresh x y)
      × Computes (block_int y -ℤ fixnum_int x) (bnfxminus gmp fresh y x)
mixed_minus-Computes gmp fresh x y hx hy small =
    (fxbnminus-Computes gmp fresh x y hx hy small, bnfxminus-Computes gmp fresh x y hx hy small)
