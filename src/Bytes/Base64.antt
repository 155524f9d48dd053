-- ===== src/Bytes/Base64.antt =====
-- `ikrt_bytevector_to_base64` and `ikrt_bytevector_from_base64`. `=` is 61.
pub mod Groups
pub mod Lengths
pub mod RoundTrip
use Prim.Native.Nat.{bit_and, bit_or}
use vicare_scheme.Base.{
  ℕ, ◌+◌, ◌-◌, ◌*◌, ◌/◌, ◌%◌, List, [], ◌∷◌, ◌++◌, Bool, true, false, ◌||◌, not, Option, none, some,
  ltb, leb, ◌==◌, if◌then◌else◌, length, get_or, drop,
}
use vicare_scheme.Numerics.Words.{most_positive_fixnum}

-- The encoding table.
abbrev pub alphabet : List ℕ
alphabet =
    65 ∷ 66 ∷ 67 ∷ 68 ∷ 69 ∷ 70 ∷ 71 ∷ 72 ∷ 73 ∷ 74 ∷ 75 ∷ 76 ∷ 77 ∷ 78 ∷ 79 ∷ 80 ∷ 81 ∷ 82 ∷ 83
    ∷ 84 ∷ 85 ∷ 86 ∷ 87 ∷ 88 ∷ 89 ∷ 90 ∷ 97 ∷ 98 ∷ 99 ∷ 100 ∷ 101 ∷ 102 ∷ 103 ∷ 104 ∷ 105 ∷ 106
    ∷ 107 ∷ 108 ∷ 109 ∷ 110 ∷ 111 ∷ 112 ∷ 113 ∷ 114 ∷ 115 ∷ 116 ∷ 117 ∷ 118 ∷ 119 ∷ 120 ∷ 121 ∷ 122
    ∷ 48 ∷ 49 ∷ 50 ∷ 51 ∷ 52 ∷ 53 ∷ 54 ∷ 55 ∷ 56 ∷ 57 ∷ 43 ∷ 47 ∷ []

-- `table[63 & v]`
unfoldable pub symbol : ℕ → ℕ
symbol v = get_or alphabet (bit_and 63 v) 0

-- A round takes three bytes, or what is left of them.
unfoldable pub encode : List ℕ → List ℕ
encode [] = []
encode (a ∷ []) = symbol (a / 4) ∷ symbol (a * 16) ∷ 61 ∷ 61 ∷ []
encode (a ∷ b ∷ []) = symbol (a / 4) ∷ symbol (bit_or (a * 16) (b / 16)) ∷ symbol (b * 4) ∷ 61 ∷ []
encode (a ∷ b ∷ c ∷ rest) =
    symbol (a / 4)
    ∷ symbol (bit_or (a * 16) (b / 16))
    ∷ symbol (bit_or (b * 4) (c / 64))
    ∷ symbol (bit_or (b * 64) c)
    ∷ encode rest

unfoldable pub number_of_groups : ℕ → ℕ
number_of_groups len = len / 3 + (if len % 3 == 0 then 0 else 1)

unfoldable pub to_base64 : List ℕ → Option (List ℕ)
to_base64 input =
    if ltb ((most_positive_fixnum - 16) / 4) (number_of_groups (length input))
    then none
    else some (encode input)

-- The decoding table, 255 for a character that is not allowed.
abbrev pub decoding : List ℕ
decoding =
    255 ∷ 255 ∷ 255 ∷ 255 ∷ 255 ∷ 255 ∷ 255 ∷ 255 ∷ 255 ∷ 0 ∷ 255 ∷ 255 ∷ 255 ∷ 255 ∷ 255 ∷ 255
    ∷ 255 ∷ 255 ∷ 255 ∷ 0 ∷ 255 ∷ 255 ∷ 255 ∷ 255 ∷ 255 ∷ 255 ∷ 255 ∷ 255 ∷ 255 ∷ 0 ∷ 255 ∷ 255
    ∷ 255 ∷ 255 ∷ 255 ∷ 255 ∷ 255 ∷ 255 ∷ 255 ∷ 0 ∷ 255 ∷ 255 ∷ 255 ∷ 62 ∷ 255 ∷ 255 ∷ 255 ∷ 63 ∷ 52
    ∷ 53 ∷ 54 ∷ 55 ∷ 56 ∷ 57 ∷ 58 ∷ 59 ∷ 60 ∷ 61 ∷ 255 ∷ 255 ∷ 255 ∷ 255 ∷ 255 ∷ 255 ∷ 255 ∷ 0 ∷ 1
    ∷ 2 ∷ 3 ∷ 4 ∷ 5 ∷ 6 ∷ 7 ∷ 8 ∷ 9 ∷ 10 ∷ 11 ∷ 12 ∷ 13 ∷ 14 ∷ 15 ∷ 16 ∷ 17 ∷ 18 ∷ 19 ∷ 20 ∷ 21 ∷ 22
    ∷ 23 ∷ 24 ∷ 25 ∷ 255 ∷ 255 ∷ 255 ∷ 255 ∷ 255 ∷ 255 ∷ 26 ∷ 27 ∷ 28 ∷ 29 ∷ 30 ∷ 31 ∷ 32 ∷ 33 ∷ 34
    ∷ 35 ∷ 36 ∷ 37 ∷ 38 ∷ 39 ∷ 40 ∷ 41 ∷ 42 ∷ 43 ∷ 44 ∷ 45 ∷ 46 ∷ 47 ∷ 48 ∷ 49 ∷ 50 ∷ 51 ∷ 255 ∷ 255
    ∷ 255 ∷ 255 ∷ 255 ∷ []

-- `table[c]`, which the code reads only where `c` is below 128.
unfoldable pub sextet : ℕ → ℕ
sextet c = get_or decoding c 0

-- The two tests of a character.
unfoldable pub refused : ℕ → Bool
refused c = leb 128 c || (sextet c == 255)

-- The first, second and third byte of a group, from the values of its characters.
unfoldable pub first_byte : ℕ → ℕ → ℕ
first_byte s t = bit_or (bit_and 255 (s * 4)) (bit_and 255 (t / 16))

unfoldable pub second_byte : ℕ → ℕ → ℕ
second_byte t u = bit_or (bit_and 255 (t * 16)) (bit_and 255 (u / 4))

unfoldable pub third_byte : ℕ → ℕ → ℕ
third_byte u v = bit_or (bit_and 255 (u * 64)) (bit_and 255 v)

abbrev pub prepend_bytes : List ℕ → Option (List ℕ) → Option (List ℕ)
prepend_bytes new none = none
prepend_bytes new (some bytes) = some (new ++ bytes)

-- `left`: how many of four characters are decoded.
unfoldable pub characters : ℕ → ℕ → ℕ
characters c d = 4 - (if d == 61 then 1 else 0) - (if c == 61 then 1 else 0)

-- One round on the characters `a`, `b`, `c` and `d`, before the bytes of the rounds that follow. The
-- assignments to bytes cut the short groups to 8 bits.
unfoldable pub decode_group : ℕ → ℕ → ℕ → ℕ → Option (List ℕ) → Option (List ℕ)
decode_group a b c d later =
    let left = characters c d in
    if left == 4
    then if refused a || (refused b || (refused c || refused d))
      then none
      else prepend_bytes
          (first_byte (sextet a) (sextet b)
            ∷ second_byte (sextet b) (sextet c)
            ∷ third_byte (sextet c) (sextet d)
            ∷ [])
          later
    else if left == 3
    then if refused a || (refused b || refused c)
      then none
      else prepend_bytes
          (bit_or (sextet a * 4) (sextet b / 16) % 256
            ∷ bit_or (sextet b * 16) (sextet c / 4) % 256
            ∷ [])
          later
    else if refused a || refused b
    then none
    else prepend_bytes (bit_or (sextet a * 4) (sextet b / 16) % 256 ∷ []) later

-- The loop. An input whose length is no multiple of 4 does not come here.
unfoldable pub decode : List ℕ → Option (List ℕ)
decode [] = some []
decode (a ∷ []) = none
decode (a ∷ b ∷ []) = none
decode (a ∷ b ∷ c ∷ []) = none
decode (a ∷ b ∷ c ∷ d ∷ rest) = decode_group a b c d (decode rest)

-- What is written from a round on: nothing where the round refuses its characters.
unfoldable pub written_before : Option (List ℕ) → List ℕ → List ℕ
written_before none later = []
written_before (some new) later = new ++ later

-- The bytes that the loop writes, also where it ends at a refused character: a round refuses its
-- characters before it writes.
unfoldable pub written : List ℕ → List ℕ
written [] = []
written (a ∷ []) = []
written (a ∷ b ∷ []) = []
written (a ∷ b ∷ c ∷ []) = []
written (a ∷ b ∷ c ∷ d ∷ rest) = written_before (decode_group a b c d (some [])) (written rest)

-- `ou_len`, from the last two characters. Before an empty input stands a byte 0, the top of its length.
unfoldable pub output_length : List ℕ → ℕ
output_length input =
    let len = length input in
    let full = 3 * (len / 4) in
    if get_or input (len - 1) 0 == 61
    then (if get_or input (len - 2) 0 == 61 then full - 2 else full - 1)
    else full

-- The result when `bytes` are written from its start on, where its memory held `memory`.
abbrev pub written_over : List ℕ → Option (List ℕ) → Option (List ℕ)
written_over memory none = none
written_over memory (some bytes) = some (bytes ++ drop (length bytes) memory)

-- `fresh n` is what the memory of a new bytevector of length `n` holds.
unfoldable pub from_base64 : (ℕ → List ℕ) → List ℕ → Option (List ℕ)
from_base64 fresh input =
    if length input % 4 == 0
    then written_over (fresh (output_length input)) (decode input)
    else none
