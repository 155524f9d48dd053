-- ===== src/Bytes/Hex/RoundTrip.antt =====
-- What the two conversions of hexadecimal digits have to do with each other.
use Prim.Native.Nat.{bit_and, bit_or}
use vicare_scheme.Base.{
  ℕ, ◌*◌, ◌/◌, ◌%◌, ◌^◌, ◌<◌, ◌≡◌, refl, ap, ◌∙◌, List, [], ◌∷◌, Bool, true, false, ◌&&◌, Option,
  none, some, arith, ltb, if◌then◌else◌, length, get_or, All,
}
use vicare_scheme.Numerics.Words.{most_positive_fixnum}
use vicare_scheme.Numerics.Shifts.Limbs.{bit_or-disjoint}
use vicare_scheme.Bytes.{IsByte, IsAscii, and_then, answers}
use vicare_scheme.Bytes.Bits.{holds_below, by_trial, agree_below, bit_and-15}
use vicare_scheme.Bytes.Hex.{
  hex_table, hex_digits, to_hex, digit_value, hexadecimal, hex_pair, hex_bytes, from_hex, cons_byte,
  char_above, char_to_int,
}

digit_value-table : (d : ℕ) → d < 16 → digit_value (get_or hex_table d 0) ≡ d
unfolding holds_below digit_value char_above
digit_value-table = agree_below (λ d. digit_value (get_or hex_table d 0)) (λ d. d) 16 refl

hexadecimal-table : (d : ℕ) → d < 16 → hexadecimal (get_or hex_table d 0) ≡ true
unfolding holds_below hexadecimal
hexadecimal-table = by_trial (λ d. hexadecimal (get_or hex_table d 0)) 16 refl

table-IsAscii : (d : ℕ) → d < 16 → ltb (get_or hex_table d 0) 128 ≡ true
unfolding holds_below
table-IsAscii = by_trial (λ d. ltb (get_or hex_table d 0) 128) 16 refl

char_to_int-ascii : (c : ℕ) → c < 128 → char_to_int c ≡ c
unfolding char_to_int
char_to_int-ascii c h = ground arith

halves : (b : ℕ) → b < 256 → bit_or (b / 16 * 16 % 256) (b % 16) ≡ b
halves b h =
    let e : b / 16 * 16 % 256 ≡ b / 16 * 2 ^ 4 = omega arith in
    rw e (bit_or-disjoint 4 (b / 16) (b % 16) (omega arith) ∙ omega arith)

module _ (isxdigit : ℕ → Bool) (documented : (c : ℕ) → c < 256 → isxdigit c ≡ hexadecimal c) where
  ascii-isxdigit : (c : ℕ) → c < 128 → isxdigit (char_to_int c) ≡ hexadecimal c
  ascii-isxdigit c h = rw (char_to_int-ascii c h) (documented c (omega arith))

  table-isxdigit : (d : ℕ) → d < 16 → isxdigit (char_to_int (get_or hex_table d 0)) ≡ true
  table-isxdigit d h =
      ascii-isxdigit (get_or hex_table d 0) (ground (arith, table-IsAscii d h))
      ∙ hexadecimal-table d h

  hex_pair-digits :
      (b : ℕ) (later : Option (List ℕ))
      → b < 256
      → hex_pair isxdigit (get_or hex_table (b / 16) 0) (get_or hex_table (bit_and b 15) 0) later
        ≡ cons_byte b later
  unfolding hex_pair
  hex_pair-digits b later h =
      rw
        (
          bit_and-15 b h,
          table-isxdigit (b / 16) (omega arith),
          table-isxdigit (b % 16) (omega arith),
          digit_value-table (b / 16) (omega arith),
          digit_value-table (b % 16) (omega arith),
          halves b h,
        )
        refl

  hex_bytes-digits :
      (bytes : List ℕ) → All IsByte bytes → hex_bytes isxdigit (hex_digits bytes) ≡ some bytes
  unfolding hex_bytes hex_digits
  hex_bytes-digits [] h = refl
  hex_bytes-digits (b ∷ bytes) (hb, h) =
      hex_pair-digits b (hex_bytes isxdigit (hex_digits bytes)) hb
      ∙ ap (cons_byte b) (hex_bytes-digits bytes h)

  -- Where `isxdigit` is as documented, bytes whose number is below the limit of `to_hex` are
  -- encoded, and `from_hex` of the text is the bytes.
  pub from_hex-to_hex :
      (bytes : List ℕ)
      → All IsByte bytes
      → length bytes < most_positive_fixnum / 2
      → and_then (to_hex bytes) (from_hex isxdigit) ≡ some bytes
  unfolding to_hex from_hex
  from_hex-to_hex bytes h lt =
      let e : ltb (length bytes) (most_positive_fixnum / 2) ≡ true = ground arith in
      rw e (hex_bytes-digits bytes h)

-- An even number of hexadecimal digits.
unfoldable pub is_hex_text : List ℕ → Bool
is_hex_text [] = true
is_hex_text (high ∷ []) = false
is_hex_text (high ∷ low ∷ rest) = hexadecimal high && (hexadecimal low && is_hex_text rest)

nul_is_none : hexadecimal 0 ≡ false
unfolding hexadecimal
nul_is_none = refl

module _ (isxdigit : ℕ → Bool) (documented : (c : ℕ) → c < 256 → isxdigit c ≡ hexadecimal c) where
  answers-hex_pair :
      (high low : ℕ) (later : Option (List ℕ))
      → high < 128
      → low < 128
      → answers (hex_pair isxdigit high low later)
        ≡ (hexadecimal high && (hexadecimal low && answers later))
  unfolding hex_pair
  answers-hex_pair high low later hh hl =
      rw (ascii-isxdigit isxdigit documented high hh, ascii-isxdigit isxdigit documented low hl)
        (go (hexadecimal high) (hexadecimal low) later)
    where
      go :
          (p q : Bool) (o : Option (List ℕ))
          → answers (
              if p
              then if q
                then cons_byte (bit_or (digit_value high * 16 % 256) (digit_value low)) o
                else none
              else none)
            ≡ (p && (q && answers o))
      go true true none = refl
      go true true (some x) = refl
      go true false o = refl
      go false q o = refl

  -- Where `isxdigit` is as documented, `from_hex` of a list of ASCII characters gives a bytevector
  -- exactly if the list is a sequence of pairs of hexadecimal digits of either case; otherwise it
  -- answers `#f`.
  pub answers-from_hex :
      (chars : List ℕ) → All IsAscii chars → answers (from_hex isxdigit chars) ≡ is_hex_text chars
  unfolding from_hex hex_bytes is_hex_text
  answers-from_hex [] h = refl
  answers-from_hex (high ∷ []) (hh, h) =
      answers-hex_pair high 0 (some []) hh (omega arith) ∙ ground (arith, nul_is_none)
  answers-from_hex (high ∷ low ∷ rest) (hh, (hl, h)) =
      answers-hex_pair high low (hex_bytes isxdigit rest) hh hl
      ∙ ground (arith, answers-from_hex rest h)
