-- ===== src/Bytes/Base64/RoundTrip.antt =====
-- What is read back from encoded bytes.
use vicare_scheme.Base.{
  ℕ, zero, suc, ◌+◌, ◌-◌, ◌*◌, ◌/◌, ◌%◌, ◌≤◌, ◌<◌, ◌≡◌, refl, sym, ap, ◌∙◌, List, [], ◌∷◌, ◌++◌,
  Option, none, some, true, false, arith, ltb, ◌==◌, length, All, drop, length-append,
}
use vicare_scheme.Numerics.Words.{most_positive_fixnum}
use Prim.Native.Nat.{bit_or}
use mathlib.Core.List.{append-nil, append_assoc}
use vicare_scheme.Bytes.{IsByte, and_then}
use vicare_scheme.Bytes.Base64.{
  encode, number_of_groups, to_base64, decode, decode_group, characters, prepend_bytes, from_base64,
  first_byte, second_byte, third_byte,
}
use vicare_scheme.Bytes.Base64.Groups.{
  bytes-Group, Character, first_byte-sum, second_byte-sum, third_byte-sum, or_four, or_two,
}
use vicare_scheme.Bytes.Base64.Lengths.{
  length-encode, output_length-append, output_length-encode, encode-nonempty,
}

-- Four characters that stand for `s`, `t`, `u` and `v`.
full_group :
    (s t u v a b c d : ℕ) (later : Option (List ℕ))
    → Character s a
    → Character t b
    → Character u c
    → Character v d
    → decode_group a b c d later
      ≡ prepend_bytes (first_byte s t ∷ second_byte t u ∷ third_byte u v ∷ []) later
unfolding decode_group characters
full_group s t u v a b c d later ca cb cc cd =
    rw
      (
        cc.no_padding, cd.no_padding, ca.accepted, cb.accepted, cc.accepted, cd.accepted, ca.value,
        cb.value, cc.value, cd.value,
      )
      refl

padded_group :
    (s t u a b c : ℕ) (later : Option (List ℕ))
    → Character s a
    → Character t b
    → Character u c
    → decode_group a b c 61 later
      ≡ prepend_bytes (bit_or (s * 4) (t / 16) % 256 ∷ bit_or (t * 16) (u / 4) % 256 ∷ []) later
unfolding decode_group characters
padded_group s t u a b c later ca cb cc =
    rw (cc.no_padding, ca.accepted, cb.accepted, cc.accepted, ca.value, cb.value, cc.value) refl

twice_padded_group :
    (s t a b : ℕ) (later : Option (List ℕ))
    → Character s a
    → Character t b
    → decode_group a b 61 61 later ≡ prepend_bytes (bit_or (s * 4) (t / 16) % 256 ∷ []) later
unfolding decode_group characters
twice_padded_group s t a b later ca cb = rw (ca.accepted, cb.accepted, ca.value, cb.value) refl

prepend_bytes_nil : (o : Option (List ℕ)) → o ≡ prepend_bytes [] o
prepend_bytes_nil none = refl
prepend_bytes_nil (some bytes) = refl

prepend_bytes_append :
    (x y : List ℕ) (o : Option (List ℕ))
    → prepend_bytes x (prepend_bytes y o) ≡ prepend_bytes (x ++ y) o
prepend_bytes_append x y none = refl
prepend_bytes_append x y (some bytes) = ap some (sym (append_assoc x y bytes))

one_back : (a : ℕ) → a < 256 → bit_or (a / 4 * 4) (a % 4 * 16 / 16) % 256 ≡ a
one_back a h =
    let e : a % 4 * 16 / 16 ≡ a % 4 = omega arith in
    rw (e, or_two (a / 4) (a % 4) (omega arith)) (omega arith)

one_back_with :
    (a b : ℕ) → a < 256 → b < 256 → bit_or (a / 4 * 4) ((a % 4 * 16 + b / 16) / 16) % 256 ≡ a
one_back_with a b h hb =
    let e : (a % 4 * 16 + b / 16) / 16 ≡ a % 4 = omega arith in
    rw (e, or_two (a / 4) (a % 4) (omega arith)) (omega arith)

two_back :
    (a b : ℕ) → a < 256 → b < 256 → bit_or ((a % 4 * 16 + b / 16) * 16) (b % 16 * 4 / 4) % 256 ≡ b
two_back a b ha h =
    let e : b % 16 * 4 / 4 ≡ b % 16 = omega arith in
    rw (e, or_four (a % 4 * 16 + b / 16) (b % 16) (omega arith)) (omega arith)

three_back :
    (a b c : ℕ) (later : Option (List ℕ))
    → a < 256
    → b < 256
    → c < 256
    → prepend_bytes
        (first_byte (a / 4) (a % 4 * 16 + b / 16)
          ∷ second_byte (a % 4 * 16 + b / 16) (b % 16 * 4 + c / 64)
          ∷ third_byte (b % 16 * 4 + c / 64) (c % 64)
          ∷ [])
        later
      ≡ prepend_bytes (a ∷ b ∷ c ∷ []) later
three_back a b c later ha hb hc =
    let e : first_byte (a / 4) (a % 4 * 16 + b / 16) ≡ a =
      first_byte-sum (a / 4) (a % 4 * 16 + b / 16) (omega arith) (omega arith) ∙ omega arith in
    let f : second_byte (a % 4 * 16 + b / 16) (b % 16 * 4 + c / 64) ≡ b =
      second_byte-sum (a % 4 * 16 + b / 16) (b % 16 * 4 + c / 64) (omega arith) (omega arith)
      ∙ omega arith in
    let g : third_byte (b % 16 * 4 + c / 64) (c % 64) ≡ c =
      third_byte-sum (b % 16 * 4 + c / 64) (c % 64) (omega arith) (omega arith) ∙ omega arith in
    rw (e, f, g) refl

-- Any text may follow the encoded bytes.
decode-encode :
    (x text : List ℕ) → All IsByte x → decode (encode x ++ text) ≡ prepend_bytes x (decode text)
unfolding encode decode
decode-encode [] text h = prepend_bytes_nil (decode text)
decode-encode (a ∷ []) text (ha, h) =
    let g = bytes-Group a 0 0 ha (omega arith) (omega arith) in
    twice_padded_group (a / 4) (a % 4 * 16) _ _ (decode text) g.first g.low_second
    ∙ rw (one_back a ha) refl
decode-encode (a ∷ b ∷ []) text (ha, (hb, h)) =
    let g = bytes-Group a b 0 ha hb (omega arith) in
    padded_group (a / 4) (a % 4 * 16 + b / 16) (b % 16 * 4) _ _ _ (decode text) g.first g.second
      g.low_third
    ∙ rw (one_back_with a b ha hb, two_back a b ha hb) refl
decode-encode (a ∷ b ∷ c ∷ rest) text (ha, (hb, (hc, h))) =
    let g = bytes-Group a b c ha hb hc in
    full_group (a / 4) (a % 4 * 16 + b / 16) (b % 16 * 4 + c / 64) (c % 64) _ _ _ _
      (decode (encode rest ++ text)) g.first g.second g.third g.fourth
    ∙ three_back a b c (decode (encode rest ++ text)) ha hb hc
    ∙ ap (prepend_bytes (a ∷ b ∷ c ∷ [])) (decode-encode rest text h)
    ∙ prepend_bytes_append (a ∷ b ∷ c ∷ []) rest (decode text)

drop-all : (memory : List ℕ) (n : ℕ) → length memory ≡ n → drop n memory ≡ []
drop-all [] zero h = refl
drop-all [] (suc n) h = refl
drop-all (m ∷ memory) zero h = absurd (omega arith)
drop-all (m ∷ memory) (suc n) h = drop-all memory n (omega arith)

multiple_of_four : (bytes : List ℕ) → (length (encode bytes) % 4 == 0) ≡ true
multiple_of_four bytes = ground (arith, length-encode bytes)

decode-encode_alone : (bytes : List ℕ) → All IsByte bytes → decode (encode bytes) ≡ some bytes
unfolding decode
decode-encode_alone bytes h =
    ap decode (sym (append-nil (encode bytes)))
    ∙ decode-encode bytes [] h
    ∙ ap some (append-nil bytes)

from_base64-encode :
    (fresh : ℕ → List ℕ)
    → ((n : ℕ) → length (fresh n) ≡ n)
    → (bytes : List ℕ) → All IsByte bytes
    → from_base64 fresh (encode bytes) ≡ some bytes
unfolding from_base64
from_base64-encode fresh sized bytes h =
    rw
      (
        multiple_of_four bytes,
        decode-encode_alone bytes h,
        output_length-encode bytes h,
        drop-all (fresh (length bytes)) (length bytes) (sized (length bytes)),
      )
      (ap some (append-nil bytes))

-- Bytes whose number of groups is within the limit of `to_base64` are encoded, and `from_base64` of
-- the text is the bytes, whatever the memory of the new bytevector held, on the condition that this
-- memory has the length asked for.
pub from_base64-to_base64 :
    (fresh : ℕ → List ℕ)
    → ((n : ℕ) → length (fresh n) ≡ n)
    → (bytes : List ℕ) → All IsByte bytes
    → number_of_groups (length bytes) ≤ (most_positive_fixnum - 16) / 4
    → and_then (to_base64 bytes) (from_base64 fresh) ≡ some bytes
unfolding to_base64
from_base64-to_base64 fresh sized bytes h small =
    let e : ltb ((most_positive_fixnum - 16) / 4) (number_of_groups (length bytes)) ≡ false =
      ground arith in
    rw e (from_base64-encode fresh sized bytes h)

-- On the encodings of two lists of bytes one after the other, the second not empty, `from_base64`
-- answers with the bytes of both and after them what the memory of the new bytevector held, up to
-- the length that counts the first encoding as full groups.
pub from_base64_joined :
    (fresh : ℕ → List ℕ) (x y : List ℕ)
    → All IsByte x
    → All IsByte y
    → 0 < length y
    → from_base64 fresh (encode x ++ encode y)
      ≡ some
          ((x ++ y) ++ drop (length (x ++ y)) (fresh (3 * number_of_groups (length x) + length y)))
unfolding from_base64
from_base64_joined fresh x [] hx hy some_y = absurd (omega arith)
from_base64_joined fresh x (b ∷ y) hx hy some_y =
    let four : (length (encode x ++ encode (b ∷ y)) % 4 == 0) ≡ true =
      ground (
        arith,
        length-append (encode x) (encode (b ∷ y)),
        length-encode x,
        length-encode (b ∷ y),
      ) in
    rw
      (
        four,
        decode-encode x (encode (b ∷ y)) hx,
        decode-encode_alone (b ∷ y) hy,
        output_length-append x (encode (b ∷ y)) (encode-nonempty b y),
        output_length-encode (b ∷ y) hy,
      )
      refl
