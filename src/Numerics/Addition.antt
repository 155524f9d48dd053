-- ===== src/Numerics/Addition.antt =====
-- `ikrt_fxfxplus`, `ikrt_fxbnplus` and `ikrt_bnbnplus` of src/ikarus-numerics.c. A garbage
-- collection inside an allocation may move the operands, which `pcb->root0` and `pcb->root1` keep
-- alive; it leaves their contents, so a block is read here as it was before the allocation.
pub mod Fixnums
pub mod Carry
pub mod Bignums
use vicare_scheme.Base.{
  ℕ, ◌+◌, ◌-◌, ◌^◌, ◌<◌, ◌≤◌, ◌≡◌, Bool, true, false, not, ◌&&◌, List, [], ◌∷◌, ◌++◌, ltb, leb,
  ◌==◌, if◌then◌else◌, get_or, take, drop, set,
}
use vicare_scheme.Numerics.Words.{fix, unfix, add_words, negate, is_negative}
use vicare_scheme.Numerics.Mpn.{Mpn, Fresh}
use vicare_scheme.Numerics.Bignum.{
  Block, Value, fixnum, bignum, Outcome, returned, verified, first_word, count_of, negative_bit,
}
use vicare_scheme.Numerics.Sum.{add_limb, sub_limb}
use vicare_scheme.Numerics.Difference.{differing, sub_magnitudes}

-- `w > 0` where `w` is an `iksword_t`.
unfoldable pub is_positive : ℕ → Bool
unfolding is_negative
is_positive w = if w == 0 then false else not (is_negative w)

unfoldable pub same_sign : Bool → Bool → Bool
same_sign true s = s
same_sign false s = not s

unfoldable pub fxfxplus : ℕ → ℕ → Outcome
fxfxplus x y =
    let r = add_words (unfix x) (unfix y) in
    let q = fix r in
    if r == unfix q
    then returned (fixnum q)
    else if is_positive r
    then verified (record { first = first_word 1 false; limbs = r ∷ [] })
    else verified (record { first = first_word 1 true; limbs = negate r ∷ [] })

-- The same-sign branch of `ikrt_bnbnplus`, and the different-sign branch of `ikrt_bnbnminus`;
-- `long` says that `x` is taken for the longer operand. The carry goes to the index `xlimbs`.
unfoldable pub add_magnitudes : Mpn → Fresh → Bool → Block → Block → Outcome
add_magnitudes gmp fresh long x y =
    let xlimbs = count_of x in
    let ylimbs = count_of y in
    let xsign = negative_bit x.first in
    let nlimb1 = if long then xlimbs else ylimbs in
    let nlimb2 = if long then ylimbs else xlimbs in
    let bn1 = if long then x.limbs else y.limbs in
    let bn2 = if long then y.limbs else x.limbs in
    let (sum, carry) = gmp.add (take nlimb1 bn1) (take nlimb2 bn2) in
    let block = sum ++ drop nlimb1 (fresh.block (nlimb1 + 1)) in
    if carry == 0
    then verified (record { first = first_word nlimb1 xsign; limbs = block })
    else verified (record { first = first_word (nlimb1 + 1) xsign; limbs = set block xlimbs 1 })

-- Whether the second operand has the greater magnitude, from the counts of limbs and the top limbs.
unfoldable pub second_greater : ℕ → ℕ → List ℕ → List ℕ → Bool
second_greater xlimbs ylimbs xs ys =
    if leb xlimbs ylimbs
    then (if xlimbs == ylimbs
        then ltb (get_or xs (xlimbs - 1) 0) (get_or ys (xlimbs - 1) 0)
        else true)
    else false

-- The different-sign branch of `ikrt_bnbnplus`.
unfoldable pub sub_blocks : Mpn → Block → Block → Outcome
sub_blocks gmp x y =
    let equal = count_of x == count_of y in
    let left = differing (count_of x) x.limbs y.limbs in
    let xlimbs = if equal then left else count_of x in
    let ylimbs = if equal then left else count_of y in
    if equal && left == 0
    then returned (fixnum 0)
    else if second_greater xlimbs ylimbs x.limbs y.limbs
    then sub_magnitudes gmp (negative_bit y.first) ylimbs y.limbs xlimbs x.limbs
    else sub_magnitudes gmp (negative_bit x.first) (count_of x) x.limbs (count_of y) y.limbs

module _ (gmp : Mpn) (fresh : Fresh) where
  unfoldable pub fxbnplus : ℕ → Block → Outcome
  fxbnplus x y =
      let intx = unfix x in
      if x == 0
      then returned (bignum y)
      else if is_positive intx
      then (if negative_bit y.first
          then sub_limb gmp fresh true y intx
          else add_limb gmp fresh false y intx)
      else (if negative_bit y.first
          then add_limb gmp fresh true y (negate intx)
          else sub_limb gmp fresh false y (negate intx))

  unfoldable pub bnbnplus : Block → Block → Outcome
  bnbnplus x y =
      if same_sign (negative_bit x.first) (negative_bit y.first)
      then add_magnitudes gmp fresh (ltb (count_of y) (count_of x)) x y
      else sub_blocks gmp x y
