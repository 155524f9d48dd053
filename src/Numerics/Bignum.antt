-- ===== src/Numerics/Bignum.antt =====
-- The representation of exact integers (src/internals.h): a fixnum in a word, or a reference to a
-- block that begins with a first word of tag, sign bit and limb count.
use vicare_scheme.Base.{
  ℕ, ◌+◌, ◌-◌, ◌*◌, ◌/◌, ◌%◌, ◌^◌, ◌<◌, ◌≤◌, ◌≡◌, Bool, true, false, List, arith, ltb, ◌==◌,
  if◌then◌else◌, length, get_or, take,
}
use vicare_scheme.Base.Int.{ℤ, signed}
use vicare_scheme.Numerics.Words.{word_base, IsFixnum, fixnum_int, limit}
use vicare_scheme.Numerics.Limbs.{IsLimbs, val}

-- The first word and the data area, which may be longer than the limb count says.
pub record Block : Type 0 where
  pub first : ℕ
  pub limbs : List ℕ

pub data Value : Type 0 where
  fixnum : ℕ → Value
  bignum : Block → Value

-- What a C function of this file does: it returns, or ends the process by `ik_abort`.
pub data Outcome : Type 0 where
  returned : Value → Outcome
  aborted : Outcome

abbrev pub sign_bit : Bool → ℕ
sign_bit false = 0
sign_bit true = 8

-- `IK_COMPOSE_BIGNUM_FIRST_WORD`
unfoldable pub first_word : ℕ → Bool → ℕ
first_word count sign = (count * 16 + sign_bit sign + 3) % word_base

-- `IK_BNFST_LIMB_COUNT` and `IK_BNFST_NEGATIVE`
unfoldable pub limb_count : ℕ → ℕ
limb_count first = first / 16

unfoldable pub negative_bit : ℕ → Bool
negative_bit first = (first / 8 % 2) == 1

abbrev pub count_of : Block → ℕ
count_of b = limb_count b.first

-- The limbs that the count covers.
abbrev pub digits_of : Block → List ℕ
digits_of b = take (count_of b) b.limbs

abbrev pub magnitude : Block → ℕ
magnitude b = val (digits_of b)

abbrev pub last_limb : Block → ℕ
last_limb b = get_or b.limbs (count_of b - 1) 0

-- What `DEBUG_VERIFY_BIGNUM` tests, and the bounds of the data area.
pub record IsBignum (b : Block) : Type 0 where
  pub tagged : b.first % 8 ≡ 3
  pub count_pos : 0 < count_of b
  pub count_fits : count_of b < 2 ^ 60
  pub held : count_of b ≤ length b.limbs
  pub words : IsLimbs b.limbs
  pub last_limb_pos : 0 < last_limb b
  pub large : count_of b ≡ 1 → limit (negative_bit b.first) < last_limb b

-- `DEBUG_VERIFY_BIGNUM`, less the test of the reference's own tag; `false` is a call of `ik_abort`.
unfoldable pub verify_bignum : Block → Bool
verify_bignum b =
    let last = last_limb b in
    if count_of b == 0
    then false
    else if last == 0
    then false
    else if count_of b == 1
    then ltb (limit (negative_bit b.first)) last
    else true

-- `return DEBUG_VERIFY_BIGNUM (b)`
unfoldable pub verified : Block → Outcome
unfolding verify_bignum
verified b = if verify_bignum b then returned (bignum b) else aborted

pub verified-IsBignum : (b : Block) → IsBignum b → verified b ≡ returned (bignum b)
unfolding verified
verified-IsBignum b h = ground (arith, h.count_pos, h.last_limb_pos, h.large)

abbrev pub IsInteger : Value → Type 0
IsInteger (fixnum w) = IsFixnum w
IsInteger (bignum b) = IsBignum b

abbrev pub block_int : Block → ℤ
block_int b = signed (negative_bit b.first) (magnitude b)

abbrev pub int_of : Value → ℤ
int_of (fixnum w) = fixnum_int w
int_of (bignum b) = block_int b

-- A run returns a well-formed integer, and which one it is.
abbrev pub Computes : ℤ → Outcome → Type 0
Computes n aborted = ⊥
Computes n (returned v) = IsInteger v × (int_of v ≡ n)

pub limb_count-first_word : (n : ℕ) (s : Bool) → n < 2 ^ 60 → limb_count (first_word n s) ≡ n
unfolding limb_count first_word
limb_count-first_word n s h = ground arith

pub negative_bit-first_word : (n : ℕ) (s : Bool) → n < 2 ^ 60 → negative_bit (first_word n s) ≡ s
unfolding negative_bit first_word
negative_bit-first_word n s h = ground arith

pub first_word-tagged : (n : ℕ) (s : Bool) → n < 2 ^ 60 → first_word n s % 8 ≡ 3
unfolding first_word
first_word-tagged n s h = ground arith
