-- ===== src/Numerics/Words.antt =====
-- Machine words and fixnums (src/internals.h): a word is its bit pattern, a number below 2 ^ 64.
-- A 64-bit platform is modelled, where `fx_shift` is 3.
use vicare_scheme.Base.{
  ℕ, ◌+◌, ◌-◌, ◌*◌, ◌/◌, ◌%◌, ◌^◌, ◌<◌, ◌≤◌, ◌≡◌, Bool, true, false, arith, ltb, leb, if◌then◌else◌,
}
use vicare_scheme.Base.Int.{ℤ, pos, negsuc, signed}

abbrev pub word_base : ℕ
word_base = 2 ^ 64

-- The least negative fixnum is -(2 ^ 60).
abbrev pub most_positive_fixnum : ℕ
most_positive_fixnum = 2 ^ 60 - 1

abbrev pub most_negative_fixnum : ℕ
most_negative_fixnum = most_positive_fixnum + 1

-- `IK_FIX`: a left shift that drops the three high bits.
unfoldable pub fix : ℕ → ℕ
fix w = w * 8 % word_base

-- `IK_UNFIX`: an arithmetic right shift, which copies the sign bit.
unfoldable pub unfix : ℕ → ℕ
unfix w = if ltb w (2 ^ 63) then w / 8 else w / 8 + 7 * 2 ^ 61

-- `-w`, `a + b` and `a - b` on words.
unfoldable pub negate : ℕ → ℕ
negate w = (word_base - w) % word_base

unfoldable pub add_words : ℕ → ℕ → ℕ
add_words a b = (a + b) % word_base

unfoldable pub sub_words : ℕ → ℕ → ℕ
sub_words a b = (a + word_base - b) % word_base

-- `w < 0` where `w` is an `iksword_t`.
unfoldable pub is_negative : ℕ → Bool
is_negative w = leb (2 ^ 63) w

-- The integer that a word stands for as an `iksword_t`.
unfoldable pub word_int : ℕ → ℤ
word_int w = if ltb w (2 ^ 63) then pos w else negsuc (word_base - w - 1)

-- The integer that a tagged fixnum stands for.
unfoldable pub fixnum_int : ℕ → ℤ
unfolding word_int unfix
fixnum_int w = word_int (unfix w)

pub record IsFixnum (w : ℕ) : Type 0 where
  pub word : w < word_base
  pub tagged : w % 8 ≡ 0

-- The greatest magnitude that fits a fixnum, by sign; `true` is negative.
unfoldable pub limit : Bool → ℕ
limit false = most_positive_fixnum
limit true = most_negative_fixnum

-- A fixnum from a sign and a magnitude: `IK_FIX (limb)` or `IK_FIX (- limb)`.
unfoldable pub fix_limb : Bool → ℕ → ℕ
unfolding fix negate
fix_limb false limb = fix limb
fix_limb true limb = fix (negate limb)

pub fix_limb-IsFixnum : (s : Bool) (n : ℕ) → IsFixnum (fix_limb s n)
unfolding fix_limb
fix_limb-IsFixnum false n = record { word = omega arith; tagged = omega arith }
fix_limb-IsFixnum true n = record { word = omega arith; tagged = omega arith }

pub fixnum_int-fix_limb : (s : Bool) (n : ℕ) → n ≤ limit s → fixnum_int (fix_limb s n) ≡ signed s n
unfolding fix_limb fixnum_int signed limit
fixnum_int-fix_limb false n h = ground arith
fixnum_int-fix_limb true n h = ground arith

-- The sign and the magnitude of a fixnum, as the code computes them.
unfoldable pub magnitude_word : ℕ → ℕ
unfolding is_negative negate unfix
magnitude_word n = if is_negative n then negate n else n

pub fixnum_magnitude :
    (w : ℕ)
    → IsFixnum w
    → (fixnum_int w ≡ signed (is_negative (unfix w)) (magnitude_word (unfix w)))
      × (magnitude_word (unfix w) ≤ limit (is_negative (unfix w)))
unfolding fixnum_int magnitude_word signed limit
fixnum_magnitude w h = ground arith

pub limit-le : (s : Bool) → limit s ≤ 2 ^ 60
unfolding limit
limit-le false = omega arith
limit-le true = omega arith

pub limit-ge : (s : Bool) → 2 ^ 60 ≤ limit s + 1
unfolding limit
limit-ge false = omega arith
limit-ge true = omega arith
