-- ===== src/Numerics/Shifts.antt =====
-- The shifts of src/ikarus-numerics.c, and the loops on limbs that they use. The offset is a fixnum that
-- is not negative: the C code takes its whole limbs and bits by `>>` and `&` of a signed word, which are
-- `/` and `%` there only, and clears a region of negative size otherwise. The loops count limbs with an
-- `int`, so a bignum has fewer than 2 ^ 31 limbs here.
use Prim.Native.Nat.{bit_or}
pub mod Limbs
pub mod Left
use vicare_scheme.Base.{
  ℕ, ◌+◌, ◌-◌, ◌*◌, ◌/◌, ◌%◌, ◌^◌, ◌≡◌, Bool, true, false, ◌&&◌, not, List, [], ◌∷◌, ◌++◌, leb,
  ◌==◌, if◌then◌else◌, get_or, set, take, drop, replicate,
}
use vicare_scheme.Numerics.Words.{word_base, fix, unfix, negate, is_negative, magnitude_word}
use vicare_scheme.Numerics.Bignum.{
  Block, fixnum, Outcome, returned, count_of, digits_of, negative_bit,
}
use vicare_scheme.Numerics.Normalize.{normalize}

-- `copy_bits_shifting_right` after its first limb, whose high bits are the carry.
unfoldable pub shift_rest : ℕ → ℕ → List ℕ → List ℕ
shift_rest m carry [] = carry ∷ []
shift_rest m carry (b ∷ rest) =
    bit_or (b * 2 ^ (64 - m) % word_base) carry ∷ shift_rest m (b / 2 ^ m) rest

unfoldable pub copy_bits_shifting_right : List ℕ → ℕ → List ℕ
copy_bits_shifting_right [] m = []
copy_bits_shifting_right (b ∷ rest) m = shift_rest m (b / 2 ^ m) rest

-- The loop of `copy_bits_shifting_left` and its carry, which is 0 at first.
unfoldable pub shift_up : ℕ → ℕ → List ℕ → List ℕ
shift_up m carry [] = carry ∷ []
shift_up m carry (b ∷ rest) =
    bit_or (b * 2 ^ m % word_base) carry ∷ shift_up m (b / 2 ^ (64 - m)) rest

unfoldable pub copy_bits_shifting_left : List ℕ → ℕ → List ℕ
copy_bits_shifting_left src m = shift_up m 0 src

unfoldable pub complement_with_carry : List ℕ → ℕ → List ℕ
complement_with_carry [] carry = []
complement_with_carry (d ∷ rest) carry =
    (carry + (word_base - 1 - d)) % word_base
    ∷ complement_with_carry rest (if not (carry == 0) && d == 0 then 1 else 0)

unfoldable pub bits_complement : List ℕ → List ℕ
bits_complement src = complement_with_carry src 1

unfoldable pub bits_carry : List ℕ → ℕ
bits_carry [] = 1
bits_carry (d ∷ rest) = if d == 0 then bits_carry rest else 0

unfoldable pub bignum_shift_right : Block → ℕ → Outcome
bignum_shift_right x y =
    let offset = unfix y in
    let whole = offset / 64 in
    let bits = offset % 64 in
    let n = count_of x - whole in
    let src = drop whole (digits_of x) in
    if negative_bit x.first
    then (if leb (count_of x) whole
        then returned (fixnum (fix (negate 1)))
        else let ones = complement_with_carry src (bits_carry (take whole (digits_of x))) in
          let shifted = copy_bits_shifting_right ones bits in
          let top = bit_or (get_or shifted (n - 1) 0) (word_base - 2 ^ (64 - bits)) in
          if bits == 0
          then normalize n true (bits_complement ones)
          else normalize n true (bits_complement (set shifted (n - 1) top)))
    else (if leb (count_of x) whole
        then returned (fixnum (fix 0))
        else if bits == 0
        then normalize n false src
        else normalize n false (copy_bits_shifting_right src bits))

unfoldable pub fixnum_shift_left : ℕ → ℕ → Outcome
fixnum_shift_left x y =
    let m = unfix y in
    let n = unfix x in
    let bits = m % 64 in
    let limbs =
      replicate (m / 64) 0
      ++ (magnitude_word n * 2 ^ bits % word_base)
        ∷ (if bits == 0 then 0 else magnitude_word n / 2 ^ (64 - bits))
        ∷ [] in
    normalize (m / 64 + 2) (is_negative n) limbs

unfoldable pub bignum_shift_left : Block → ℕ → Outcome
bignum_shift_left x y =
    let offset = unfix y in
    let whole = offset / 64 in
    let bits = offset % 64 in
    if bits == 0
    then normalize (count_of x + whole) (negative_bit x.first) (replicate whole 0 ++ digits_of x)
    else normalize (count_of x + whole + 1) (negative_bit x.first)
        (replicate whole 0 ++ copy_bits_shifting_left (digits_of x) bits)
