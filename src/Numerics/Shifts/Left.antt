-- ===== src/Numerics/Shifts/Left.antt =====
-- The shifts to the left are products by powers of 2.
use vicare_scheme.Base.{
  ℕ, zero, suc, ◌+◌, ◌-◌, ◌*◌, ◌/◌, ◌%◌, ◌^◌, ◌<◌, ◌≤◌, ◌≡◌, refl, ◌∙◌, ap, List, [], ◌∷◌, arith,
  length, replicate, ◌++◌, Bool, false, inl, inr, ◌==◌, ==_iff, Bool-cases, length-take, All-take,
  if◌then◌else◌,
}
use vicare_scheme.Numerics.Words.{word_base}
use vicare_scheme.Numerics.Limbs.{IsLimbs, weight, val}
use vicare_scheme.Base.Int.{signed}
use vicare_scheme.Numerics.Words.{unfix, IsFixnum, is_negative, magnitude_word}
use vicare_scheme.Numerics.Bignum.{
  IsBignum, Block, Computes, count_of, digits_of, magnitude, negative_bit,
}
use vicare_scheme.Numerics.Normalize.{normalize}
use vicare_scheme.Numerics.Product.Exact.{all_limbs, magnitude-lt_base}
use vicare_scheme.Numerics.Shifts.{
  shift_up, copy_bits_shifting_left, bignum_shift_left, fixnum_shift_left,
}
use vicare_scheme.Numerics.Shifts.Limbs.{
  pow_pos, base_pow, shifted-Limb, val-shift_up, length-shift_up, shift_up-IsLimbs, weight-pow,
}

-- A block of low zeros and a shifted number.
val-zeros_then : (k : ℕ) (xs : List ℕ) → val (replicate k 0 ++ xs) ≡ weight k * val xs
unfolding val weight
val-zeros_then zero xs = omega arith
val-zeros_then (suc k) xs = omega (arith, val-zeros_then k xs)

length-zeros_then : (k : ℕ) (xs : List ℕ) → length (replicate k 0 ++ xs) ≡ k + length xs
length-zeros_then zero xs = omega arith
length-zeros_then (suc k) xs = omega (arith, length-zeros_then k xs)

zeros_then-IsLimbs : (k : ℕ) (xs : List ℕ) → IsLimbs xs → IsLimbs (replicate k 0 ++ xs)
zeros_then-IsLimbs zero xs h = h
zeros_then-IsLimbs (suc k) xs h = (omega arith, zeros_then-IsLimbs k xs h)

offset_pow : (offset : ℕ) → 2 ^ offset ≡ weight (offset / 64) * 2 ^ (offset % 64)
offset_pow offset =
    let e : offset ≡ 64 * (offset / 64) + offset % 64 = omega arith in
    ap (λ n. 2 ^ n) e ∙ weight-pow (offset / 64) (offset % 64)

reorder : (w v p : ℕ) → w * (v * p) ≡ v * (w * p)
reorder w v p = grind arith

-- Normalising low zeros and the limbs of a shifted magnitude.
shifted-Computes :
    (s : Bool) (k n m : ℕ) (p : ℕ) (xs : List ℕ)
    → length xs ≡ n
    → IsLimbs xs
    → val xs ≡ m * p
    → n + k < 2 ^ 60
    → Computes (signed s (m * (weight k * p))) (normalize (n + k) s (replicate k 0 ++ xs))
shifted-Computes s k n m p xs width words number fits =
    let total : val (replicate k 0 ++ xs) ≡ m * (weight k * p) =
      val-zeros_then k xs ∙ rw number (reorder (weight k) m p) in
    let long = length-zeros_then k xs in
    rw total at (
      all_limbs s (n + k) (replicate k 0 ++ xs) (omega (arith, long, width))
        (zeros_then-IsLimbs k xs words) fits)

times_one : (bits m : ℕ) → bits ≡ 0 → m ≡ m * 2 ^ bits
times_one bits m e = rw e (omega arith)

-- `bignum_shift_left` of a well-formed bignum, whose number of limbs an `int` holds, by an offset
-- that is not negative, where the limbs with one more and the offset's whole limbs are fewer than
-- 2 ^ 60, returns a well-formed integer of the same sign and
-- the magnitude times 2 to the offset, and does not end the process.
pub bignum_shift_left-Computes :
    (x : Block) (y : ℕ)
    → IsBignum x
    → is_negative (unfix y) ≡ false
    → count_of x < 2 ^ 31
    → count_of x + 1 + unfix y / 64 < 2 ^ 60
    → Computes (signed (negative_bit x.first) (magnitude x * 2 ^ unfix y)) (bignum_shift_left x y)
unfolding bignum_shift_left copy_bits_shifting_left
bignum_shift_left-Computes x y h forward counted room =
    let whole : ℕ = unfix y / 64 in
    let bits : ℕ = unfix y % 64 in
    let s = negative_bit x.first in
    let wide = length-take (count_of x) x.limbs h.held in
    let limbs = All-take (λ l. l < word_base) (count_of x) x.limbs h.words in
    rw (offset_pow (unfix y)) (elim (Bool-cases (bits == 0)) [
      | inl none_left ↦
          let e : bits ≡ 0 = (==_iff bits 0).0 none_left in
          rw none_left (
            shifted-Computes s whole (count_of x) (magnitude x) (2 ^ bits) (digits_of x) wide limbs
              (times_one bits (magnitude x) e) (omega arith))
      | inr some_left ↦
          let small : bits ≤ 64 = omega arith in
          let low = pow_pos bits in
          let number = val-shift_up bits (digits_of x) 0 small limbs low in
          let order : count_of x + whole + 1 ≡ count_of x + 1 + whole = omega arith in
          rw (some_left, order)
            (shifted-Computes s whole (count_of x + 1) (magnitude x) (2 ^ bits)
              (shift_up bits 0 (digits_of x))
              (omega (arith, length-shift_up bits (digits_of x) 0, wide))
              (shift_up-IsLimbs bits (digits_of x) 0 small limbs low) (omega (arith, number)) room)
    ])

-- The two limbs that hold a shifted word.
word_shifted :
    (m b : ℕ)
    → m ≤ 64
    → b < word_base
    → b * 2 ^ m % word_base + word_base * (b / 2 ^ (64 - m)) ≡ b * 2 ^ m
word_shifted m b small lt =
    let l = shifted-Limb m b 0 small lt (pow_pos m) in
    let p : ℕ = b * 2 ^ m in omega (arith, l.number, l.fits)

two_words : (lo hi : ℕ) → val (lo ∷ hi ∷ []) ≡ lo + word_base * hi
unfolding val
two_words lo hi = omega arith

high_word : (b m : ℕ) → b < word_base → m ≡ 0 → 0 ≡ b / 2 ^ (64 - m)
high_word b m lt e = rw e (omega arith)

-- `fixnum_shift_left` of a fixnum by an offset that is not negative and whose whole limbs and two more are fewer than 2 ^ 60
-- returns a well-formed integer of the same sign and the magnitude times 2 to the offset, and does
-- not end the process.
pub fixnum_shift_left-Computes :
    (x y : ℕ)
    → IsFixnum x
    → is_negative (unfix y) ≡ false
    → 2 + unfix y / 64 < 2 ^ 60
    → Computes
        (signed (is_negative (unfix x)) (magnitude_word (unfix x) * 2 ^ unfix y))
        (fixnum_shift_left x y)
unfolding fixnum_shift_left
fixnum_shift_left-Computes x y h forward room =
    let whole : ℕ = unfix y / 64 in
    let bits : ℕ = unfix y % 64 in
    let n : ℕ = magnitude_word (unfix x) in
    let lo : ℕ = n * 2 ^ bits % word_base in
    let hi : ℕ = n / 2 ^ (64 - bits) in
    let lt : n < word_base = magnitude-lt_base x h in
    let small : bits ≤ 64 = omega arith in
    let hi_lt : hi < word_base =
      omega (arith, (shifted-Limb bits n 0 small lt (pow_pos bits)).next, base_pow bits small) in
    let total : val (lo ∷ hi ∷ []) ≡ n * 2 ^ bits =
      two_words lo hi ∙ word_shifted bits n small lt in
    let order : whole + 2 ≡ 2 + whole = omega arith in
    let made =
      shifted-Computes (is_negative (unfix x)) whole 2 n (2 ^ bits) (lo ∷ hi ∷ []) refl
        (omega arith, (hi_lt, tt)) total room in
    let top : (if bits == 0 then 0 else hi) ≡ hi = elim (Bool-cases (bits == 0)) [
      | inl none_left ↦ rw none_left (high_word n bits lt ((==_iff bits 0).0 none_left))
      | inr some_left ↦ rw some_left refl
    ] in
    rw (offset_pow (unfix y), order, top) made

-- For a well-formed bignum of fewer than 2 ^ 31 limbs, a fixnum, and an offset that is not negative
-- and such that the limbs of the bignum with two more and the whole limbs of the offset are fewer
-- than 2 ^ 60, `bignum_shift_left` and `fixnum_shift_left` each return a well-formed integer of the
-- same sign and the magnitude times 2 to the offset, and do not end the process.
pub shift_left-Computes :
    (x : Block) (w y : ℕ)
    → IsBignum x
    → IsFixnum w
    → is_negative (unfix y) ≡ false
    → count_of x < 2 ^ 31
    → count_of x + 2 + unfix y / 64 < 2 ^ 60
    → Computes (signed (negative_bit x.first) (magnitude x * 2 ^ unfix y)) (bignum_shift_left x y)
      × Computes
          (signed (is_negative (unfix w)) (magnitude_word (unfix w) * 2 ^ unfix y))
          (fixnum_shift_left w y)
shift_left-Computes x w y hx hw forward counted small = (
  bignum_shift_left-Computes x y hx forward counted (omega arith),
  fixnum_shift_left-Computes w y hw forward (omega arith),
)
