-- ===== src/Numerics/Normalize.antt =====
-- `ik_normalize_bignum` and the last steps that the arithmetic functions share with it: the high
-- zero limbs are dropped, and what fits a fixnum becomes one.
use vicare_scheme.Base.{
  ℕ, zero, suc, ◌-◌, ◌^◌, ◌<◌, ◌≤◌, ◌≡◌, refl, sym, ◌∙◌, inl, inr, Bool, true, false, ◌&&◌, List,
  arith, leb, ◌==◌, if◌then◌else◌, Bool-cases, ==_iff, length, get_or, take,
}
use vicare_scheme.Base.Int.{signed}
use vicare_scheme.Numerics.Words.{
  limit, fix_limb, fixnum_int, fix_limb-IsFixnum, fixnum_int-fix_limb,
}
use vicare_scheme.Numerics.Limbs.{IsLimbs, val, val-take-suc, val-take_one}
use vicare_scheme.Numerics.Bignum.{
  Block, fixnum, first_word, limb_count-first_word, negative_bit-first_word, first_word-tagged,
  IsBignum, Outcome, returned, verified, verified-IsBignum, Computes,
}

-- The result of `size` limbs and a sign, once the high zero limbs are gone.
unfoldable pub make_integer : Bool → ℕ → List ℕ → Outcome
make_integer sign size limbs =
    if size == 1 && leb (get_or limbs 0 0) (limit sign)
    then returned (fixnum (fix_limb sign (get_or limbs 0 0)))
    else verified (record { first = first_word size sign; limbs = limbs })

-- The loop that drops high zero limbs; 0 where every limb is zero. Its first count is not 0: there the C
-- loop would begin at the word before the limbs.
unfoldable pub significant : ℕ → List ℕ → ℕ
significant zero limbs = zero
significant (suc n) limbs = if get_or limbs n 0 == 0 then significant n limbs else suc n

unfoldable pub normalize : ℕ → Bool → List ℕ → Outcome
unfolding significant make_integer
normalize n sign limbs =
    let size = significant n limbs in
    if size == 0 then returned (fixnum 0) else make_integer sign size limbs

-- What the last step asks of its limbs.
pub record IsTrimmed (size : ℕ) (limbs : List ℕ) : Type 0 where
  pub count_pos : 0 < size
  pub count_fits : size < 2 ^ 60
  pub held : size ≤ length limbs
  pub words : IsLimbs limbs
  pub last_limb_pos : 0 < get_or limbs (size - 1) 0

pub bignum-Computes :
    (s : Bool) (size : ℕ) (limbs : List ℕ)
    → IsTrimmed size limbs
    → (size ≡ 1 → limit s < get_or limbs 0 0)
    → Computes
        (signed s (val (take size limbs)))
        (verified (record { first = first_word size s; limbs = limbs }))
bignum-Computes s size limbs t large =
    let e = limb_count-first_word size s t.count_fits in
    let g = negative_bit-first_word size s t.count_fits in
    let b : Block = record { first = first_word size s; limbs = limbs } in
    let h : IsBignum b = record {
      tagged = first_word-tagged size s t.count_fits;
      count_pos = rw e t.count_pos;
      count_fits = rw e t.count_fits;
      held = rw e t.held;
      words = t.words;
      last_limb_pos = rw e t.last_limb_pos;
      large = rw (e, g) (λ one. rw one (large one));
    } in
    rw (verified-IsBignum b h) (h, rw (e, g))

fixnum-Computes :
    (s : Bool) (limbs : List ℕ)
    → 1 ≤ length limbs
    → get_or limbs 0 0 ≤ limit s
    → Computes (signed s (val (take 1 limbs))) (returned (fixnum (fix_limb s (get_or limbs 0 0))))
fixnum-Computes s limbs held small =
    (fix_limb-IsFixnum s _, rw (val-take_one limbs held) (fixnum_int-fix_limb s _ small))

pub make_integer-Computes :
    (s : Bool) (size : ℕ) (limbs : List ℕ)
    → IsTrimmed size limbs
    → Computes (signed s (val (take size limbs))) (make_integer s size limbs)
unfolding make_integer
make_integer-Computes s size limbs t = elim (Bool-cases (size == 1)) [
  | inr many ↦ rw many (bignum-Computes s size limbs t (λ one. ground arith))
  | inl one ↦ rw one (elim (Bool-cases (leb (get_or limbs 0 0) (limit s))) [
    | inl small ↦
        rw (small, (==_iff size 1).0 one)
          (fixnum-Computes s limbs (omega (arith, t.count_pos, t.held)) (ground arith))
    | inr large ↦ rw large (bignum-Computes s size limbs t (λ e. ground arith))
  ])
]

pub zero-Computes : (s : Bool) (n : ℕ) → n ≡ 0 → Computes (signed s n) (returned (fixnum 0))
unfolding fixnum_int signed
zero-Computes false n h = (omega arith, ground arith)
zero-Computes true n h = (omega arith, ground arith)

pub val_nil : (limbs : List ℕ) → val (take 0 limbs) ≡ 0
unfolding val
val_nil limbs = refl

significant-le : (n : ℕ) (limbs : List ℕ) → significant n limbs ≤ n
unfolding significant
significant-le zero limbs = omega arith
significant-le (suc n) limbs = ground (arith, significant-le n limbs)

significant-last :
    (n : ℕ) (limbs : List ℕ)
    → 0 < significant n limbs
    → 0 < get_or limbs (significant n limbs - 1) 0
unfolding significant
significant-last zero limbs h = absurd (omega arith)
significant-last (suc n) limbs h = elim (Bool-cases (get_or limbs n 0 == 0)) [
  | inl zeros ↦ let h' = rw zeros at h in rw zeros (significant-last n limbs h')
  | inr top ↦ rw top (let e : suc n - 1 ≡ n = omega arith in rw e (ground arith))
]

-- Dropping high zero limbs keeps the number.
pub val-take-significant :
    (n : ℕ) (limbs : List ℕ)
    → n ≤ length limbs
    → val (take (significant n limbs) limbs) ≡ val (take n limbs)
unfolding significant
val-take-significant zero limbs h = refl
val-take-significant (suc n) limbs h = elim (Bool-cases (get_or limbs n 0 == 0)) [
  | inl zeros ↦
      rw (zeros, val-take-suc n limbs h, (==_iff _ 0).0 zeros)
        (omega (arith, val-take-significant n limbs (omega arith)))
  | inr top ↦ rw top
]

-- `normalize` of a count below 2 ^ 60, a sign and a list of at least so many limbs returns a well-
-- formed integer with that sign and the magnitude of the first so many limbs, and does not end the
-- process.
pub normalize-Computes :
    (n : ℕ) (s : Bool) (limbs : List ℕ)
    → n < 2 ^ 60
    → n ≤ length limbs
    → IsLimbs limbs
    → Computes (signed s (val (take n limbs))) (normalize n s limbs)
unfolding normalize
normalize-Computes n s limbs fits held words = elim (Bool-cases (significant n limbs == 0)) [
  | inl none_left ↦
      let nothing : significant n limbs ≡ 0 = (==_iff _ 0).0 none_left in
      let zeros = rw nothing at (val-take-significant n limbs held) in
      rw none_left (zero-Computes s (val (take n limbs)) (sym zeros ∙ val_nil limbs))
  | inr left ↦
      rw (left, ← val-take-significant n limbs held)
        (make_integer-Computes s (significant n limbs) limbs (record {
          count_pos = ground arith;
          count_fits = omega (arith, significant-le n limbs);
          held = omega (arith, significant-le n limbs);
          words = words;
          last_limb_pos = significant-last n limbs (ground arith);
        }))
]

-- A single limb, which may be zero.
pub single-Computes :
    (s : Bool) (limbs : List ℕ)
    → length limbs ≡ 1
    → IsLimbs limbs
    → Computes (signed s (val (take 1 limbs))) (make_integer s 1 limbs)
unfolding make_integer
single-Computes s limbs one words =
    let held : 1 ≤ length limbs = omega (arith, one) in
    elim (Bool-cases (leb (get_or limbs 0 0) (limit s))) [
      | inl small ↦ rw small (fixnum-Computes s limbs held (ground arith))
      | inr large ↦ rw large (
          bignum-Computes s 1 limbs
            (record {
              count_pos = omega arith;
              count_fits = omega arith;
              held = held;
              words = words;
              last_limb_pos = ground arith;
            })
            (λ e. ground arith))
    ]
