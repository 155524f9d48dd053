-- ===== src/Bytes/Tests.antt =====
-- Bytes and texts at which the theorems of Bytes are applied.
use vicare_scheme.Base.{
  ℕ, ◌+◌, ◌*◌, ◌≤◌, ◌≡◌, refl, List, [], ◌∷◌, ◌++◌, false, some, arith, length, replicate, drop,
  length-replicate, All,
}
use vicare_scheme.Bytes.{and_then, answer_or, answers, IsByte}
use vicare_scheme.Bytes.Hex.{to_hex, hex_digits, from_hex, hexadecimal}
use vicare_scheme.Bytes.Hex.RoundTrip.{from_hex-to_hex, answers-from_hex, is_hex_text}
use vicare_scheme.Bytes.Base64.{
  to_base64, from_base64, encode, decode, output_length, number_of_groups, refused, symbol,
  written_before, written, decode_group, characters, sextet, first_byte, second_byte, third_byte,
}
use vicare_scheme.Bytes.Base64.Groups.{in_alphabet, stray, refused_exactly}
use vicare_scheme.Bytes.Base64.Lengths.{decode-fits}
use vicare_scheme.Bytes.Base64.RoundTrip.{from_base64-to_base64, from_base64_joined}

-- "Man", and the single byte 255.
abbrev man : List ℕ
man = 77 ∷ 97 ∷ 110 ∷ []

abbrev last : List ℕ
last = 255 ∷ []

abbrev noise : ℕ → List ℕ
noise n = replicate n 7

noise_sized : (n : ℕ) → length (noise n) ≡ n
noise_sized n = length-replicate n 7

man-IsByte : All IsByte man
man-IsByte = omega arith

last-IsByte : All IsByte last
last-IsByte = omega arith

to_hex-man : to_hex man ≡ some (52 ∷ 68 ∷ 54 ∷ 49 ∷ 54 ∷ 69 ∷ [])
unfolding to_hex hex_digits
to_hex-man = refl

from_hex-to_hex_example : and_then (to_hex man) (from_hex hexadecimal) ≡ some man
from_hex-to_hex_example = from_hex-to_hex hexadecimal (λ c h. refl) man man-IsByte (omega arith)

-- "4G" is refused.
answers-from_hex_example :
    answers (from_hex hexadecimal (52 ∷ 71 ∷ [])) ≡ is_hex_text (52 ∷ 71 ∷ [])
answers-from_hex_example = answers-from_hex hexadecimal (λ c h. refl) (52 ∷ 71 ∷ []) (omega arith)

-- "TWFu"
to_base64-man : to_base64 man ≡ some (84 ∷ 87 ∷ 70 ∷ 117 ∷ [])
unfolding to_base64 number_of_groups encode symbol
to_base64-man = refl

from_base64-to_base64_example : and_then (to_base64 man) (from_base64 noise) ≡ some man
unfolding number_of_groups
from_base64-to_base64_example = from_base64-to_base64 noise noise_sized man man-IsByte (omega arith)

-- "/w==TWFu": the last two of six bytes are what the memory held.
from_base64_joined_example :
    from_base64 noise (encode last ++ encode man)
    ≡ some (
        (last ++ man)
        ++ drop (length (last ++ man)) (noise (3 * number_of_groups (length last) + length man)))
from_base64_joined_example = from_base64_joined noise last man last-IsByte man-IsByte (omega arith)

-- "TWFuTW`u": the first group is written, the second refused.
abbrev broken : List ℕ
broken = 84 ∷ 87 ∷ 70 ∷ 117 ∷ 84 ∷ 87 ∷ 96 ∷ 117 ∷ []

written-broken : written broken ≡ man
unfolding written written_before decode_group characters refused sextet first_byte second_byte
    third_byte
written-broken = refl

decode-fits_example :
    (length (written broken) ≤ output_length broken)
    × (answer_or (decode broken) (written broken) ≡ written broken)
decode-fits_example = decode-fits broken refl

refused_exactly_example : refused 39 ≡ false
unfolding in_alphabet stray
refused_exactly_example = refused_exactly 39 (omega arith)
