-- ===== src/Numerics/Modulo/Floor.antt =====
-- The remainder of the flooring division by a fixnum.
use vicare_scheme.Base.{
  ℕ, ◌+◌, ◌*◌, ◌-◌, ◌<◌, ◌≤◌, ◌≡◌, ◌^◌, sym, ◌∙◌, refl, inl, inr, Bool, true, false, not, ◌==◌,
  ==_iff, arith, Bool-cases, if◌then◌else◌, All-take,
}
use vicare_scheme.Base.Int.{signed}
use vicare_scheme.Numerics.Words.{
  word_base, fix, unfix, add_words, sub_words, negate, is_negative, IsFixnum, fixnum_int,
  magnitude_word, fixnum_magnitude, limit-le,
}
use vicare_scheme.Numerics.Bignum.{Block, IsBignum, count_of, digits_of, magnitude, negative_bit}
use vicare_scheme.Numerics.Product.Exact.{magnitude-lt_base}
use vicare_scheme.Numerics.Modulo.{IsRemainder, Mod1, bnfx_modulo, IsModulo}

fix_word-IsFixnum : (w : ℕ) → IsFixnum (fix w)
unfolding fix
fix_word-IsFixnum w = record { word = omega arith; tagged = omega arith }

-- The words that the branches return.
module _ (d r : ℕ) (small : r < d) (fits : d ≤ 2 ^ 60) where
  plus_word : fixnum_int (fix r) ≡ signed false r
  unfolding fix fixnum_int signed
  plus_word = ground arith

  minus_word : fixnum_int (fix (negate r)) ≡ signed true r
  unfolding fix fixnum_int signed negate
  minus_word = ground arith

  zero_word : (t : Bool) → fixnum_int (fix 0) ≡ signed t 0
  unfolding fix fixnum_int signed
  zero_word true = ground arith
  zero_word false = ground arith

  up_word :
      (y : ℕ)
      → y < word_base
      → is_negative y ≡ true
      → negate y ≡ d
      → 0 < r
      → fixnum_int (fix (add_words y r)) ≡ signed true (d - r)
  unfolding fix fixnum_int signed negate add_words is_negative
  up_word y w minus e gt = ground arith

  down_word : 0 < r → fixnum_int (fix (sub_words d r)) ≡ signed false (d - r)
  unfolding fix fixnum_int signed sub_words
  down_word gt = ground arith

not_both : (t : Bool) → t ≡ not t → ⊥
not_both true e = cc
not_both false e = cc

next_multiple : (q n d m : ℕ) → q * d + m ≡ n → m < d → n + (d - m) ≡ (q + 1) * d
next_multiple q n d m total small = grind arith

module _ (s t : Bool) (n d out : ℕ) (valid : IsFixnum out) where
  -- Signs that agree keep the remainder.
  kept_rest :
      (r : ℕ) → s ≡ t → IsRemainder n d r → fixnum_int out ≡ signed t r → IsModulo s n t d out
  kept_rest r e m number = record {
    valid = valid;
    q = m.q;
    r = r;
    number = number;
    small = m.small;
    same_sign = λ same. sym m.total;
    other_sign = λ other. absurd (not_both t (sym e ∙ other));
  }

  -- Nothing is left.
  no_rest : (q : ℕ) → n ≡ q * d → 0 < d → fixnum_int out ≡ signed t 0 → IsModulo s n t d out
  no_rest q e gt number = record {
    valid = valid;
    q = q;
    r = 0;
    number = number;
    small = gt;
    same_sign = λ same. omega arith;
    other_sign = λ other. omega arith;
  }

  -- Signs that differ take the remainder from the divisor.
  other_rest :
      (m : ℕ)
      → s ≡ not t
      → IsRemainder n d m
      → 0 < m
      → fixnum_int out ≡ signed t (d - m)
      → IsModulo s n t d out
  other_rest m e rest gt number = record {
    valid = valid;
    q = rest.q + 1;
    r = d - m;
    number = number;
    small = omega (arith, rest.small);
    same_sign = λ same. absurd (not_both t (sym same ∙ e));
    other_sign = λ other. next_multiple rest.q n d m rest.total rest.small;
  }

module _ (gmp : Mod1) (x : Block) (y : ℕ) (hx : IsBignum x) (hy : IsFixnum y)
    (nonzero : 0 < magnitude_word (unfix y)) where
  abbrev divisor : ℕ
  divisor = magnitude_word (unfix y)

  fits : divisor ≤ 2 ^ 60
  fits = omega (arith, (fixnum_magnitude y hy).1, limit-le (is_negative (unfix y)))

  rest : IsRemainder (magnitude x) divisor (gmp.mod_1 (digits_of x) divisor)
  rest =
      gmp.mod_1-IsRemainder (digits_of x) divisor
        (All-take (λ l. l < word_base) (count_of x) x.limbs hx.words) nonzero
        (magnitude-lt_base y hy)

  unfix-lt : unfix y < word_base
  unfolding unfix
  unfix-lt = ground (arith, hy.word)

  negative_divisor : is_negative (unfix y) ≡ true → divisor ≡ negate (unfix y)
  unfolding magnitude_word is_negative negate
  negative_divisor minus = ground arith

  positive_divisor : is_negative (unfix y) ≡ false → divisor ≡ unfix y
  unfolding magnitude_word is_negative negate
  positive_divisor plus = ground arith

  minus_one : (unfix y == negate 1) ≡ true → divisor ≡ 1
  unfolding magnitude_word is_negative negate
  minus_one e = ground arith

  by_one : divisor ≡ 1 → magnitude x ≡ magnitude x * divisor
  by_one e = rw e (omega arith)

  divides : gmp.mod_1 (digits_of x) divisor ≡ 0 → magnitude x ≡ rest.q * divisor
  divides e = let total = rest.total in omega (arith, e, total)

  abbrev m : ℕ
  m = gmp.mod_1 (digits_of x) divisor

  by_negative :
      is_negative (unfix y) ≡ true
      → IsModulo (negative_bit x.first) (magnitude x) true divisor (
          if unfix y == negate 1
          then fix 0
          else if negative_bit x.first
          then fix (negate m)
          else if m == 0
          then fix 0
          else fix (add_words (unfix y) m))
  by_negative minus =
      let zero_int = zero_word divisor m rest.small fits true in
      let tagged = fix_word-IsFixnum in
      elim (Bool-cases (unfix y == negate 1)) [
        | inl one ↦ rw one (
            no_rest _ true _ _ _ (tagged 0) (magnitude x) (by_one (minus_one one)) nonzero zero_int)
        | inr other ↦ rw other (elim (Bool-cases (negative_bit x.first)) [
          | inl sx ↦ rw sx (
              kept_rest true true _ _ _ (tagged (negate m)) m refl rest
                (minus_word divisor m rest.small fits))
          | inr sx ↦ rw sx (elim (Bool-cases (m == 0)) [
            | inl none_left ↦ rw none_left (
                no_rest _ true _ _ _ (tagged 0) rest.q (divides ((==_iff m 0).0 none_left)) nonzero
                  zero_int)
            | inr some_left ↦
                let gt : 0 < m = ground arith in
                rw some_left (
                  other_rest false true _ _ _ (tagged (add_words (unfix y) m)) m refl rest gt (
                    up_word divisor m rest.small fits (unfix y) unfix-lt minus
                      (sym (negative_divisor minus)) gt))
          ])
        ])
      ]

  by_positive : IsModulo (negative_bit x.first) (magnitude x) false divisor (
      if divisor == 1
      then fix 0
      else if negative_bit x.first
      then (if m == 0 then fix 0 else fix (sub_words divisor m))
      else fix m)
  by_positive =
      let zero_int = zero_word divisor m rest.small fits false in
      let tagged = fix_word-IsFixnum in
      elim (Bool-cases (divisor == 1)) [
        | inl one ↦ rw one (
            no_rest _ false _ _ _ (tagged 0) (magnitude x) (by_one ((==_iff divisor 1).0 one))
              nonzero zero_int)
        | inr other ↦ rw other (elim (Bool-cases (negative_bit x.first)) [
          | inr sx ↦ rw sx (
              kept_rest false false _ _ _ (tagged m) m refl rest
                (plus_word divisor m rest.small fits))
          | inl sx ↦ rw sx (elim (Bool-cases (m == 0)) [
            | inl none_left ↦ rw none_left (
                no_rest _ false _ _ _ (tagged 0) rest.q (divides ((==_iff m 0).0 none_left)) nonzero
                  zero_int)
            | inr some_left ↦
                let gt : 0 < m = ground arith in
                rw some_left (
                  other_rest true false _ _ _ (tagged (sub_words divisor m)) m refl rest gt
                    (down_word divisor m rest.small fits gt))
          ])
        ])
      ]

  with_divisor :
      (u : ℕ)
      → u ≡ divisor
      → IsModulo (negative_bit x.first) (magnitude x) false divisor (
          let m = gmp.mod_1 (digits_of x) u in
          if u == 1
          then fix 0
          else if negative_bit x.first
          then (if m == 0 then fix 0 else fix (sub_words u m))
          else fix m)
  with_divisor u e = rw e by_positive

  -- For every implementation of `mpn_mod_1`, `bnfx_modulo` of a well-formed bignum and a fixnum
  -- whose magnitude is not 0 is a tagged fixnum with the sign of the second and a magnitude `r`
  -- below that of the second, such that the first magnitude is a multiple of the second plus `r`
  -- where the signs agree, and a multiple of it less `r` where they differ.
  pub bnfx_modulo-IsModulo :
      IsModulo
        (negative_bit x.first)
        (magnitude x)
        (is_negative (unfix y))
        divisor
        (bnfx_modulo gmp x y)
  unfolding bnfx_modulo
  bnfx_modulo-IsModulo = elim (Bool-cases (is_negative (unfix y))) [
    | inl minus ↦ rw (minus, ← negative_divisor minus) (by_negative minus)
    | inr plus ↦ let e = positive_divisor plus in rw plus (with_divisor (unfix y) (sym e))
  ]
