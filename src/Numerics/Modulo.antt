-- ===== src/Numerics/Modulo.antt =====
-- `ikrt_bnfx_modulo` of src/ikarus-numerics.c. GMP's `mpn_mod_1` is a parameter.
pub mod Floor
use vicare_scheme.Base.{
  ℕ, ◌+◌, ◌*◌, ◌-◌, ◌<◌, ◌≤◌, ◌≡◌, ◌^◌, sym, ◌∙◌, refl, inl, inr, Bool, true, false, not, List,
  ◌==◌, ==_iff, arith, Bool-cases, if◌then◌else◌, All-take,
}
use vicare_scheme.Base.Int.{signed}
use vicare_scheme.Numerics.Words.{
  word_base, fix, unfix, add_words, sub_words, negate, is_negative, IsFixnum, fixnum_int, limit,
  magnitude_word, fixnum_magnitude, limit-le,
}
use vicare_scheme.Numerics.Limbs.{IsLimbs, val}
use vicare_scheme.Numerics.Bignum.{Block, IsBignum, count_of, digits_of, magnitude, negative_bit}
use vicare_scheme.Numerics.Product.Exact.{magnitude-lt_base}

-- A remainder of a number by a divisor.
pub record IsRemainder (n c r : ℕ) : Type 0 where
  pub q : ℕ
  pub total : q * c + r ≡ n
  pub small : r < c

pub record Mod1 : Type 0 where
  pub mod_1 : List ℕ → ℕ → ℕ
  pub mod_1-IsRemainder :
      (xs : List ℕ) (c : ℕ)
      → IsLimbs xs
      → 0 < c
      → c < word_base
      → IsRemainder (val xs) c (mod_1 xs c)

unfoldable pub bnfx_modulo : Mod1 → Block → ℕ → ℕ
bnfx_modulo gmp x y =
    let yint = unfix y in
    if is_negative yint
    then (let m = gmp.mod_1 (digits_of x) (negate yint) in
        if yint == negate 1
        then fix 0
        else if negative_bit x.first
        then fix (negate m)
        else if m == 0
        then fix 0
        else fix (add_words yint m))
    else (let m = gmp.mod_1 (digits_of x) yint in
        if yint == 1
        then fix 0
        else if negative_bit x.first
        then (if m == 0 then fix 0 else fix (sub_words yint m))
        else fix m)

-- A tagged fixnum with the sign of the divisor, below it, and congruent to the dividend: the dividend
-- less the result is a multiple of the divisor.
pub record IsModulo (s : Bool) (n : ℕ) (t : Bool) (d : ℕ) (out : ℕ) : Type 0 where
  pub valid : IsFixnum out
  pub q : ℕ
  pub r : ℕ
  pub number : fixnum_int out ≡ signed t r
  pub small : r < d
  pub same_sign : s ≡ t → n ≡ q * d + r
  pub other_sign : s ≡ not t → n + r ≡ q * d
