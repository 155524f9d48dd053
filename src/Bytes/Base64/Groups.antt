-- ===== src/Bytes/Base64/Groups.antt =====
-- One group of three bytes and four characters: what the two tables and the masks come to.
use Prim.Native.Nat.{bit_and, bit_or}
use vicare_scheme.Base.{
  ℕ, ◌+◌, ◌*◌, ◌/◌, ◌%◌, ◌<◌, ◌≡◌, refl, sym, Bool, true, false, not, ◌&&◌, ◌||◌, arith, leb, ◌==◌,
  false-true, get_or,
}
use vicare_scheme.Numerics.Shifts.Limbs.{bit_or-disjoint}
use vicare_scheme.Bytes.Bits.{holds_below, by_trial, agree_below, bit_and-63, bit_and-255}
use vicare_scheme.Bytes.Base64.{
  alphabet, symbol, sextet, refused, first_byte, second_byte, third_byte,
}

-- What a character of the alphabet is for the decoder.
pub record Character (v c : ℕ) : Type 0 where
  pub value : sextet c ≡ v
  pub accepted : refused c ≡ false
  pub no_padding : (c == 61) ≡ false

sextet-alphabet : (v : ℕ) → v < 64 → sextet (get_or alphabet v 0) ≡ v
unfolding holds_below sextet
sextet-alphabet = agree_below (λ v. sextet (get_or alphabet v 0)) (λ v. v) 64 refl

alphabet_accepted :
    (v : ℕ)
    → v < 64
    → (not (refused (get_or alphabet v 0)) && not (get_or alphabet v 0 == 61)) ≡ true
unfolding holds_below refused sextet
alphabet_accepted =
    by_trial (λ v. not (refused (get_or alphabet v 0)) && not (get_or alphabet v 0 == 61)) 64 refl

alphabet-Character : (v : ℕ) → v < 64 → Character v (get_or alphabet v 0)
alphabet-Character v h = record {
  value = sextet-alphabet v h;
  accepted = ground (arith, alphabet_accepted v h);
  no_padding = ground (arith, alphabet_accepted v h);
}

pub symbol-Character : (v w : ℕ) → w < 16384 → w % 64 ≡ v → Character v (symbol w)
unfolding symbol
symbol-Character v w h e = rw (bit_and-63 w h, e) (alphabet-Character v (omega arith))

masked_low : (n : ℕ) → n < 65536 → bit_and 63 (bit_or (n / 256 * 64) (n % 256)) ≡ n % 64
unfolding holds_below
masked_low =
    agree_below (λ n. bit_and 63 (bit_or (n / 256 * 64) (n % 256))) (λ n. n % 64) 65536 refl

-- The last character does not see the byte before it.
last-Character : (b c : ℕ) → b < 256 → c < 256 → Character (c % 64) (symbol (bit_or (b * 64) c))
unfolding symbol
last-Character b c hb hc =
    let q : (b * 256 + c) / 256 ≡ b = omega arith in
    let r : (b * 256 + c) % 256 ≡ c = omega arith in
    let s : (b * 256 + c) % 64 ≡ c % 64 = omega arith in
    let e : bit_and 63 (bit_or (b * 64) c) ≡ c % 64 =
      rw (q, r, s) at (masked_low (b * 256 + c) (omega arith)) in
    rw e (alphabet-Character (c % 64) (omega arith))

pub or_four : (a b : ℕ) → b < 16 → bit_or (a * 16) b ≡ a * 16 + b
or_four a b h = bit_or-disjoint 4 a b h

pub or_two : (b c : ℕ) → c < 4 → bit_or (b * 4) c ≡ b * 4 + c
or_two b c h = bit_or-disjoint 2 b c h

or_six : (a b : ℕ) → b < 64 → bit_or (a * 64) b ≡ a * 64 + b
or_six a b h = bit_or-disjoint 6 a b h

pub first_byte-sum : (s t : ℕ) → s < 64 → t < 64 → first_byte s t ≡ s * 4 + t / 16
unfolding first_byte
first_byte-sum s t hs ht =
    let e : s * 4 % 256 ≡ s * 4 = omega arith in
    let f : t / 16 % 256 ≡ t / 16 = omega arith in
    rw (bit_and-255 (s * 4) (omega arith), bit_and-255 (t / 16) (omega arith), e, f)
      (or_two s (t / 16) (omega arith))

pub second_byte-sum : (t u : ℕ) → t < 64 → u < 64 → second_byte t u ≡ t % 16 * 16 + u / 4
unfolding second_byte
second_byte-sum t u ht hu =
    let e : t * 16 % 256 ≡ t % 16 * 16 = omega arith in
    let f : u / 4 % 256 ≡ u / 4 = omega arith in
    rw (bit_and-255 (t * 16) (omega arith), bit_and-255 (u / 4) (omega arith), e, f)
      (or_four (t % 16) (u / 4) (omega arith))

pub third_byte-sum : (u v : ℕ) → u < 64 → v < 64 → third_byte u v ≡ u % 4 * 64 + v
unfolding third_byte
third_byte-sum u v hu hv =
    let e : u * 64 % 256 ≡ u % 4 * 64 = omega arith in
    let f : v % 256 ≡ v = omega arith in
    rw (bit_and-255 (u * 64) (omega arith), bit_and-255 v (omega arith), e, f) (or_six (u % 4) v hv)

-- The characters of three bytes decode to these.
pub record Group (a b c : ℕ) : Type 0 where
  pub first : Character (a / 4) (symbol (a / 4))
  pub second : Character (a % 4 * 16 + b / 16) (symbol (bit_or (a * 16) (b / 16)))
  pub third : Character (b % 16 * 4 + c / 64) (symbol (bit_or (b * 4) (c / 64)))
  pub fourth : Character (c % 64) (symbol (bit_or (b * 64) c))
  pub low_second : Character (a % 4 * 16) (symbol (a * 16))
  pub low_third : Character (b % 16 * 4) (symbol (b * 4))

pub bytes-Group : (a b c : ℕ) → a < 256 → b < 256 → c < 256 → Group a b c
bytes-Group a b c ha hb hc = record {
  first = symbol-Character (a / 4) (a / 4) (omega arith) (omega arith);
  second =
      rw (or_four a (b / 16) (omega arith))
        (symbol-Character (a % 4 * 16 + b / 16) (a * 16 + b / 16) (omega arith) (omega arith));
  third =
      rw (or_two b (c / 64) (omega arith))
        (symbol-Character (b % 16 * 4 + c / 64) (b * 4 + c / 64) (omega arith) (omega arith));
  fourth = last-Character b c hb hc;
  low_second = symbol-Character (a % 4 * 16) (a * 16) (omega arith) (omega arith);
  low_third = symbol-Character (b % 16 * 4) (b * 4) (omega arith) (omega arith);
}

-- The characters of RFC 4648.
unfoldable pub in_alphabet : ℕ → Bool
in_alphabet c =
    (leb 65 c && leb c 90)
    || ((leb 97 c && leb c 122) || ((leb 48 c && leb c 57) || ((c == 43) || (c == 47))))

-- The entries of the decoding table that are 0 although they stand for no character.
unfoldable pub stray : ℕ → Bool
stray c = (c == 9) || ((c == 19) || ((c == 29) || (c == 39)))

agree : Bool → Bool → Bool
agree true b = b
agree false b = not b

agree-elim : (a b : Bool) → agree a b ≡ true → a ≡ b
unfolding agree
agree-elim true b e = sym e
agree-elim false true e = absurd (false-true e)
agree-elim false false e = refl

refused-table : (c : ℕ) → c < 256 → agree (refused c) (not (in_alphabet c || stray c)) ≡ true
unfolding holds_below refused sextet in_alphabet stray agree
refused-table = by_trial (λ c. agree (refused c) (not (in_alphabet c || stray c))) 256 refl

-- A byte is refused exactly if it is neither in the alphabet of RFC 4648 nor one of 9, 19, 29 and
-- 39.
pub refused_exactly : (c : ℕ) → c < 256 → refused c ≡ not (in_alphabet c || stray c)
refused_exactly c h = agree-elim (refused c) (not (in_alphabet c || stray c)) (refused-table c h)
