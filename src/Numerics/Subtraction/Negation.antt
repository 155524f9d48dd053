-- ===== src/Numerics/Subtraction/Negation.antt =====
-- Negation.
use vicare_scheme.Base.{
  ◌+◌, ◌-◌, ◌<◌, ◌≡◌, inl, inr, true, false, not, arith, ◌==◌, ==_iff, Bool-cases, get_or,
  length-take, take-all, All-take,
}
use vicare_scheme.Base.Int.{signed}
use vicare_scheme.Numerics.Words.{
  word_base, fix, negate, limit, most_positive_fixnum, fix_limb, fix_limb-IsFixnum,
  fixnum_int-fix_limb,
}
use vicare_scheme.Numerics.Limbs.{val-take_one, weight-ge_base}
use vicare_scheme.Numerics.Bignum.{
  Block, IsBignum, returned, fixnum, Computes, count_of, digits_of, magnitude, negative_bit,
}
use vicare_scheme.Numerics.Magnitude.{Holds-Computes, IsBignum-Bounds}
use vicare_scheme.Numerics.Subtraction.{bnnegate, negates_to_fixnum}

one_limb-magnitude : (x : Block) → IsBignum x → count_of x ≡ 1 → magnitude x ≡ get_or x.limbs 0 0
one_limb-magnitude x h e = rw e (val-take_one x.limbs (omega (arith, h.held, e)))

-- The same magnitude with the other sign is out of the range of fixnums but for one number.
large_negated :
    (x : Block)
    → IsBignum x
    → negates_to_fixnum x ≡ false
    → limit (not (negative_bit x.first)) < magnitude x
unfolding negates_to_fixnum limit
large_negated x h other =
    let bounds = IsBignum-Bounds h in
    elim (Bool-cases (count_of x == 1)) [
      | inl one ↦ ground (arith, one_limb-magnitude x h ((==_iff _ 1).0 one), bounds.large)
      | inr many ↦
          ground
            (arith, bounds.lower, weight-ge_base (count_of x - 1) (ground (arith, h.count_pos)))
    ]

least-Computes :
    (x : Block)
    → IsBignum x
    → negates_to_fixnum x ≡ true
    → Computes
        (signed (not (negative_bit x.first)) (magnitude x))
        (returned (fixnum (fix (negate (get_or x.limbs 0 0)))))
unfolding negates_to_fixnum fix_limb limit
least-Computes x h least =
    let one : count_of x ≡ 1 = ground arith in
    let plus : negative_bit x.first ≡ false = ground arith in
    let limb : get_or x.limbs 0 0 ≡ most_positive_fixnum + 1 = ground arith in
    rw (one_limb-magnitude x h one, plus)
      (
        fix_limb-IsFixnum true _,
        fixnum_int-fix_limb true (get_or x.limbs 0 0) (omega (arith, limb)),
      )

-- `bnnegate` of a well-formed bignum returns a well-formed integer with the other sign and the same
-- magnitude, and does not end the process.
pub bnnegate-Computes :
    (x : Block)
    → IsBignum x
    → Computes (signed (not (negative_bit x.first)) (magnitude x)) (bnnegate x)
unfolding bnnegate
bnnegate-Computes x h = elim (Bool-cases (negates_to_fixnum x)) [
  | inl least ↦ rw least (least-Computes x h least)
  | inr other ↦
      let bounds = IsBignum-Bounds h in
      let wide = length-take (count_of x) x.limbs h.held in
      rw other (
        Holds-Computes (record {
          count_pos = h.count_pos;
          count_fits = h.count_fits;
          held = omega (arith, wide);
          words = All-take (λ l. l < word_base) (count_of x) x.limbs h.words;
          number = rw (take-all (count_of x) (digits_of x) (omega (arith, wide)));
          lower = bounds.lower;
          large = large_negated x h other;
        }))
]
