-- ===== src/Bytes/Hex.antt =====
-- `ikrt_bytevector_to_hex` and `ikrt_bytevector_from_hex`. The test `isxdigit` is of the C library and a
-- parameter, on the bit pattern of an `int`; `hexadecimal` is what its documentation says of the C locale,
-- for the numbers of `unsigned char`. A byte from 128 on reaches it as a negative number other than those.
pub mod RoundTrip
use Prim.Native.Nat.{bit_and, bit_or}
use vicare_scheme.Base.{
  ℕ, ◌+◌, ◌*◌, ◌/◌, ◌%◌, ◌^◌, ◌-◌, ◌<◌, ◌≡◌, List, [], ◌∷◌, Bool, true, false, ◌&&◌, ◌||◌, Option,
  none, some, arith, ltb, leb, if◌then◌else◌, length, get_or,
}
use vicare_scheme.Numerics.Words.{most_positive_fixnum}

abbrev pub hex_table : List ℕ
hex_table = 48 ∷ 49 ∷ 50 ∷ 51 ∷ 52 ∷ 53 ∷ 54 ∷ 55 ∷ 56 ∷ 57 ∷ 65 ∷ 66 ∷ 67 ∷ 68 ∷ 69 ∷ 70 ∷ []

-- The digits of the high and of the low half of each byte.
unfoldable pub hex_digits : List ℕ → List ℕ
hex_digits [] = []
hex_digits (byte ∷ rest) =
    get_or hex_table (byte / 16) 0 ∷ get_or hex_table (bit_and byte 15) 0 ∷ hex_digits rest

unfoldable pub to_hex : List ℕ → Option (List ℕ)
to_hex input =
    if ltb (length input) (most_positive_fixnum / 2) then some (hex_digits input) else none

-- `ch > n` for a signed `char`, which is given by its bit pattern.
unfoldable pub char_above : ℕ → ℕ → Bool
char_above n ch = ltb n ch && ltb ch 128

-- The value of a digit: `c - '0'`, then the two corrections for letters, and the mask.
unfoldable pub digit_value : ℕ → ℕ
digit_value c =
    let ch₁ = (c + 208) % 256 in
    let ch₂ = if char_above 9 ch₁ then (ch₁ + 249) % 256 else ch₁ in
    let ch₃ = if char_above 16 ch₂ then (ch₂ + 224) % 256 else ch₂ in bit_and ch₃ 15

unfoldable pub hexadecimal : ℕ → Bool
hexadecimal c = (leb 48 c && leb c 57) || ((leb 65 c && leb c 70) || (leb 97 c && leb c 102))

-- A signed `char` as an `int`, both as bit patterns.
unfoldable pub char_to_int : ℕ → ℕ
char_to_int c = if ltb c 128 then c else c + (2 ^ 32 - 256)

abbrev pub cons_byte : ℕ → Option (List ℕ) → Option (List ℕ)
cons_byte b none = none
cons_byte b (some bytes) = some (b ∷ bytes)

module _ (isxdigit : ℕ → Bool) where
  -- One round of the loop: the byte of two digits, before the bytes of the rounds that follow.
  unfoldable pub hex_pair : ℕ → ℕ → Option (List ℕ) → Option (List ℕ)
  hex_pair high low later =
      if isxdigit (char_to_int high)
      then if isxdigit (char_to_int low)
        then cons_byte (bit_or (digit_value high * 16 % 256) (digit_value low)) later
        else none
      else none

  -- At the end of an input of odd length the second digit is the 0 that follows the data.
  unfoldable pub hex_bytes : List ℕ → Option (List ℕ)
  hex_bytes [] = some []
  hex_bytes (high ∷ []) = hex_pair high 0 (some [])
  hex_bytes (high ∷ low ∷ rest) = hex_pair high low (hex_bytes rest)

  unfoldable pub from_hex : List ℕ → Option (List ℕ)
  from_hex input = hex_bytes input
