-- ===== src/Symbols/Hash.antt =====
-- The hash functions of src/ikarus-symbol-table.c. Words of 64 bits; a character is tagged, with its
-- code above 8 bits.
use Prim.Native.Nat.{bit_and, bit_and-bitwise, bit_xor, digits, min}
use vicare_scheme.Base.{
  ℕ, zero, suc, ◌+◌, ◌-◌, ◌*◌, ◌/◌, ◌%◌, ◌^◌, ◌<◌, ◌≤◌, ◌≡◌, List, [], ◌∷◌, arith, ltb,
  if◌then◌else◌, length, take,
}
use vicare_scheme.Numerics.Words.{word_base, fix, unfix, IsFixnum}

-- How much of the data is hashed: `#f`, `#t` or a non-negative fixnum.
pub data Limit : Type 0 where
  default : Limit
  whole : Limit
  at_most : ℕ → Limit

-- One round for a character or byte.
unfoldable pub mix : ℕ → ℕ → ℕ
mix hash c =
    let h₁ = (hash + c) % word_base in
    let h₂ = (h₁ + h₁ * 2 ^ 10) % word_base in bit_xor h₂ (h₂ / 2 ^ 6)

unfoldable pub mix_all : ℕ → List ℕ → ℕ
mix_all hash [] = hash
mix_all hash (c ∷ rest) = mix_all (mix hash c) rest

-- The last round, and the shifts that make the value positive.
unfoldable pub finish : ℕ → ℕ
finish hash =
    let h₁ = (hash + hash * 2 ^ 3) % word_base in
    let h₂ = bit_xor h₁ (h₁ / 2 ^ 11) in
    let h₃ = (h₂ + h₂ * 2 ^ 15) % word_base in h₃ * 2 ^ 4 % word_base / 2 ^ 4

-- How many characters or bytes are hashed.
unfoldable pub hashed_length : ℕ → ℕ → Limit → ℕ
hashed_length len standard default = if ltb len standard then len else standard
hashed_length len standard whole = len
hashed_length len standard (at_most n) = if ltb len n then len else n

-- `IK_CHAR32_TO_INTEGER`
abbrev pub char_codes : List ℕ → List ℕ
char_codes [] = []
char_codes (c ∷ rest) = c / 2 ^ 8 ∷ char_codes rest

unfoldable pub compute_string_hash : List ℕ → Limit → ℕ
compute_string_hash s limit =
    finish (mix_all (length s) (char_codes (take (hashed_length (length s) 64 limit) s)))

unfoldable pub string_hash : List ℕ → Limit → ℕ
unfolding fix
string_hash s limit = fix (compute_string_hash s limit)

unfoldable pub bytevector_hash : List ℕ → Limit → ℕ
unfolding fix
bytevector_hash b limit =
    fix (finish (mix_all (length b) (take (hashed_length (length b) 256 limit) b)))

-- The hash as an `int`, as a word again: the sign bit of the low half is copied up.
unfoldable pub as_int : ℕ → ℕ
as_int h = let low = h % 2 ^ 32 in if ltb low (2 ^ 31) then low else low + (2 ^ 64 - 2 ^ 32)

-- The bucket of a string in a table of `size` buckets.
unfoldable pub bucket_index : List ℕ → ℕ → ℕ
bucket_index s size = bit_and (as_int (compute_string_hash s whole)) (size - 1)

and_digits-le : (n a b : ℕ) → digits (λ b. zero) min n a b ≤ b
and_digits-le zero a b = omega arith
and_digits-le (suc n) zero b = omega arith
and_digits-le (suc n) (suc a) b = omega (arith, and_digits-le n (suc a / 2) (b / 2))

bit_and-le : (a b : ℕ) → bit_and a b ≤ b
bit_and-le a b = omega (arith, bit_and-bitwise a b, and_digits-le a a b)

pub bucket_index-lt : (s : List ℕ) (size : ℕ) → 0 < size → bucket_index s size < size
unfolding bucket_index
bucket_index-lt s size h =
    omega (arith, bit_and-le (as_int (compute_string_hash s whole)) (size - 1))

finish-lt : (h : ℕ) → finish h < 2 ^ 60
unfolding finish
finish-lt h = omega arith

-- The hash of a string fits a fixnum.
pub compute_string_hash-lt : (s : List ℕ) (limit : Limit) → compute_string_hash s limit < 2 ^ 60
unfolding compute_string_hash
compute_string_hash-lt s limit =
    finish-lt (mix_all (length s) (char_codes (take (hashed_length (length s) 64 limit) s)))

fix_positive : (h : ℕ) → h < 2 ^ 60 → IsFixnum (fix h) × (unfix (fix h) ≡ h)
unfolding fix unfix
fix_positive h small = (record { word = omega arith; tagged = omega arith }, ground arith)

-- For every string and limit `string_hash` is a fixnum, its value is that of `compute_string_hash`,
-- and that is below 2 ^ 60.
pub string_hash-IsFixnum :
    (s : List ℕ) (limit : Limit)
    → (IsFixnum (string_hash s limit) × (unfix (string_hash s limit) ≡ compute_string_hash s limit))
      × (compute_string_hash s limit < 2 ^ 60)
unfolding string_hash
string_hash-IsFixnum s limit =
    let small = compute_string_hash-lt s limit in
    (fix_positive (compute_string_hash s limit) small, small)

pub bytevector_hash-IsFixnum :
    (b : List ℕ) (limit : Limit)
    → IsFixnum (bytevector_hash b limit) × (unfix (bytevector_hash b limit) < 2 ^ 60)
unfolding bytevector_hash
bytevector_hash-IsFixnum b limit =
    let h = finish (mix_all (length b) (take (hashed_length (length b) 256 limit) b)) in
    let small = finish-lt (mix_all (length b) (take (hashed_length (length b) 256 limit) b)) in
    let f = fix_positive h small in (f.0, rw f.1 small)
