-- ===== src/Numerics/Division/Exact.antt =====
-- The divisions truncate.
use vicare_scheme.Base.{
  get_or-take, ℕ, ◌+◌, ◌-◌, ◌*◌, ◌^◌, ◌<◌, ◌≤◌, ◌≡◌, refl, inl, inr, Bool, true, false, not, Option,
  some, arith, ltb, if◌then◌else◌, Bool-cases, length, get_or, length-take, All-take,
}
use vicare_scheme.Base.Int.{signed}
use vicare_scheme.Numerics.Words.{
  word_base, fix, unfix, negate, is_negative, magnitude_word, IsFixnum, fixnum_int, limit, fix_limb,
  fix_limb-IsFixnum, fixnum_int-fix_limb, fixnum_magnitude, limit-le, limit-ge,
}
use vicare_scheme.Numerics.Limbs.{IsLimbs, val}
use vicare_scheme.Numerics.Opposite.{lt_of_count}
use vicare_scheme.Numerics.Bignum.{
  Block, Value, fixnum, bignum, Outcome, returned, aborted, IsBignum, IsInteger, Computes, int_of,
  count_of, digits_of, magnitude, negative_bit,
}
use vicare_scheme.Numerics.Normalize.{normalize}
use vicare_scheme.Numerics.Product.{product_sign}
use vicare_scheme.Numerics.Product.Exact.{all_limbs, magnitude-lt_base}
use vicare_scheme.Numerics.Division.{Division, pair, bnbndivrem, bnfxdivrem}

-- The quotient rounded towards 0 of a number of sign `s` and magnitude `n` by one of sign `t` and
-- magnitude `d`, and the remainder, which has the sign of the first; both well formed.
pub record Truncates (s : Bool) (n : ℕ) (t : Bool) (d : ℕ) (out : Option (Value × Value))
    : Type 0 where
  pub quotient : Value
  pub remainder : Value
  pub returns : out ≡ some (quotient, remainder)
  pub quotient_valid : IsInteger quotient
  pub remainder_valid : IsInteger remainder
  pub q : ℕ
  pub r : ℕ
  pub quotient_int : int_of quotient ≡ signed (product_sign s t) q
  pub remainder_int : int_of remainder ≡ signed s r
  pub total : q * d + r ≡ n
  pub small : r < d

pub pair-Truncates :
    (s t : Bool) (n d q r : ℕ) (qo ro : Outcome)
    → Computes (signed (product_sign s t) q) qo
    → Computes (signed s r) ro
    → q * d + r ≡ n
    → r < d
    → Truncates s n t d (pair qo ro)
unfolding pair
pair-Truncates s t n d q r (returned qv) (returned rv) hq hr total small = record {
  quotient = qv;
  remainder = rv;
  returns = refl;
  quotient_valid = hq.0;
  remainder_valid = hr.0;
  q = q;
  r = r;
  quotient_int = hq.1;
  remainder_int = hr.1;
  total = total;
  small = small;
}
pair-Truncates s t n d q r (returned qv) aborted hq hr total small = absurd hr
pair-Truncates s t n d q r aborted ro hq hr total small = absurd hq

-- The sign of the quotient, as the code computes it.
quotient_sign : (s t : Bool) → (if t then not s else s) ≡ product_sign s t
unfolding product_sign
quotient_sign true true = refl
quotient_sign true false = refl
quotient_sign false true = refl
quotient_sign false false = refl

digits-IsLimbs : (x : Block) → IsBignum x → IsLimbs (digits_of x)
digits-IsLimbs x h = All-take (λ l. l < word_base) (count_of x) x.limbs h.words

-- The quotient and the remainder of two bignums, as the code computes them.
module _ (gmp : Division) (x y : Block) (hx : IsBignum x) (hy : IsBignum y) where
  divided :
      count_of y ≤ count_of x
      → Truncates (negative_bit x.first) (magnitude x) (negative_bit y.first) (magnitude y) (
          let (q, r) = gmp.tdiv_qr (digits_of x) (digits_of y) in
          pair
            (normalize
              (count_of x - count_of y + 1)
              (if negative_bit y.first then not (negative_bit x.first) else negative_bit x.first)
              q)
            (normalize (count_of y) (negative_bit x.first) r))
  divided le =
      let wx = length-take (count_of x) x.limbs hx.held in
      let wy = length-take (count_of y) y.limbs hy.held in
      let top : get_or (digits_of y) (length (digits_of y) - 1) 0
          ≡ get_or y.limbs (count_of y - 1) 0 =
        rw wy (get_or-take y.limbs (count_of y) (count_of y - 1) 0 (omega (arith, hy.count_pos))) in
      let d =
        gmp.tdiv_qr-Divides (digits_of x) (digits_of y) (digits-IsLimbs x hx) (digits-IsLimbs y hy)
          (omega (arith, wx, wy)) (omega (arith, top, hy.last_limb_pos)) in
      let sx = negative_bit x.first in
      let sy = negative_bit y.first in
      let out = gmp.tdiv_qr (digits_of x) (digits_of y) in
      let fits : count_of x - count_of y + 1 < 2 ^ 60 =
        omega (arith, hx.count_fits, hy.count_pos) in
      rw (quotient_sign sx sy) (
        pair-Truncates sx sy (magnitude x) (magnitude y) (val out.0) (val out.1)
          (normalize (count_of x - count_of y + 1) (product_sign sx sy) out.0)
          (normalize (count_of y) sx out.1)
          (all_limbs (product_sign sx sy) (count_of x - count_of y + 1) out.0
            (omega (arith, d.quotient_width, wx, wy)) d.quotient_words fits)
          (all_limbs sx (count_of y) out.1 (omega (arith, d.remainder_width, wy)) d.remainder_words
            hy.count_fits)
          d.total d.small)

  zero_quotient : (s : Bool) → int_of (fixnum 0) ≡ signed s 0
  unfolding fixnum_int signed
  zero_quotient false = ground arith
  zero_quotient true = ground arith

  -- For every implementation of GMP's divisions, `bnbndivrem` of two well-formed bignums returns a
  -- pair of well-formed integers `q` and `r`, where |q| times the second magnitude plus |r| is the
  -- first magnitude, |r| is less than the second magnitude, `q` has the product of the signs and
  -- `r` the sign of the first.
  pub bnbndivrem-Truncates :
      Truncates
        (negative_bit x.first)
        (magnitude x)
        (negative_bit y.first)
        (magnitude y)
        (bnbndivrem gmp x y)
  unfolding bnbndivrem
  bnbndivrem-Truncates = elim (Bool-cases (ltb (count_of x) (count_of y))) [
    | inr longer ↦ rw longer (divided (ground arith))
    | inl shorter ↦
        let lt : count_of x < count_of y = ground arith in
        rw shorter (record {
          quotient = fixnum 0;
          remainder = bignum x;
          returns = refl;
          quotient_valid = record { word = omega arith; tagged = refl };
          remainder_valid = hx;
          q = 0;
          r = magnitude x;
          quotient_int = zero_quotient (product_sign (negative_bit x.first) (negative_bit y.first));
          remainder_int = refl;
          total = omega arith;
          small = lt_of_count hx hy lt;
        })
  ]

remainder_word :
    (s : Bool) (r : ℕ) → r < word_base → (if s then negate (fix r) else fix r) ≡ fix_limb s r
unfolding fix_limb fix negate
remainder_word true r h = omega arith
remainder_word false r h = refl

-- For every implementation of GMP's divisions, `bnfxdivrem` of a well-formed bignum and a fixnum
-- whose magnitude is not 0 returns a pair of well-formed integers `q` and `r`, where |q| times the
-- second magnitude plus |r| is the first magnitude, |r| is less than the second magnitude, `q` has
-- the product of the signs and `r` the sign of the first.
pub bnfxdivrem-Truncates :
    (gmp : Division) (x : Block) (y : ℕ)
    → IsBignum x
    → IsFixnum y
    → 0 < magnitude_word (unfix y)
    → Truncates
        (negative_bit x.first)
        (magnitude x)
        (is_negative (unfix y))
        (magnitude_word (unfix y))
        (bnfxdivrem gmp x y)
unfolding bnfxdivrem
bnfxdivrem-Truncates gmp x y hx hy nonzero =
    let sx = negative_bit x.first in
    let sy = is_negative (unfix y) in
    let c = magnitude_word (unfix y) in
    let wx = length-take (count_of x) x.limbs hx.held in
    let d =
      gmp.divrem_1-DividesBy (digits_of x) c (digits-IsLimbs x hx) nonzero
        (magnitude-lt_base y hy) in
    let out = gmp.divrem_1 (digits_of x) c in
    let bound = (fixnum_magnitude y hy).1 in
    let room : out.1 ≤ limit sx = omega (arith, d.small, bound, limit-le sy, limit-ge sx) in
    rw (quotient_sign sx sy, remainder_word sx out.1 (omega (arith, d.small, bound, limit-le sy)))
      (pair-Truncates sx sy (magnitude x) c (val out.0) out.1
        (normalize (count_of x) (product_sign sx sy) out.0) (returned (fixnum (fix_limb sx out.1)))
        (all_limbs (product_sign sx sy) (count_of x) out.0 (omega (arith, d.width, wx)) d.words
          hx.count_fits)
        (fix_limb-IsFixnum sx out.1, fixnum_int-fix_limb sx out.1 room) d.total d.small)
