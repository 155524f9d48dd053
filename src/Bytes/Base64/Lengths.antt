-- ===== src/Bytes/Base64/Lengths.antt =====
-- How many bytes a text stands for, and how many the decoder writes.
use vicare_scheme.Base.{
  ℕ, zero, suc, ◌+◌, ◌-◌, ◌*◌, ◌%◌, ◌≤◌, ◌≡◌, refl, ap, ◌∙◌, List, [], ◌∷◌, ◌++◌, Option, none,
  some, arith, ◌==◌, if◌then◌else◌, length, get_or, length-append,
}
use vicare_scheme.Bytes.Base64.{
  encode, number_of_groups, written_before, written, decode, decode_group, characters,
  output_length,
}
use vicare_scheme.Base.{All}
use vicare_scheme.Bytes.{IsByte, answer_or}
use vicare_scheme.Bytes.Base64.Groups.{bytes-Group}

pub length-encode : (bytes : List ℕ) → length (encode bytes) ≡ 4 * number_of_groups (length bytes)
unfolding encode number_of_groups
length-encode [] = refl
length-encode (a ∷ []) = refl
length-encode (a ∷ b ∷ []) = refl
length-encode (a ∷ b ∷ c ∷ rest) = ground (arith, length-encode rest)

get_or-skip :
    (a b c d i : ℕ) (rest : List ℕ)
    → 4 ≤ i
    → get_or (a ∷ b ∷ c ∷ d ∷ rest) i 0 ≡ get_or rest (i - 4) 0
get_or-skip a b c d zero rest h = absurd (omega arith)
get_or-skip a b c d (suc zero) rest h = absurd (omega arith)
get_or-skip a b c d (suc (suc zero)) rest h = absurd (omega arith)
get_or-skip a b c d (suc (suc (suc zero))) rest h = absurd (omega arith)
get_or-skip a b c d (suc (suc (suc (suc i)))) rest h = ap (λ j. get_or rest j 0) (omega arith)

pub output_length-group :
    (a b c d : ℕ) (rest : List ℕ)
    → 4 ≤ length rest
    → output_length (a ∷ b ∷ c ∷ d ∷ rest) ≡ 3 + output_length rest
unfolding output_length
output_length-group a b c d rest h =
    let n = length rest in
    let e : get_or (a ∷ b ∷ c ∷ d ∷ rest) (n + 4 - 1) 0 ≡ get_or rest (n - 1) 0 =
      get_or-skip a b c d (n + 4 - 1) rest (omega arith)
      ∙ ap (λ j. get_or rest j 0) (omega arith) in
    let f : get_or (a ∷ b ∷ c ∷ d ∷ rest) (n + 4 - 2) 0 ≡ get_or rest (n - 2) 0 =
      get_or-skip a b c d (n + 4 - 2) rest (omega arith)
      ∙ ap (λ j. get_or rest j 0) (omega arith) in
    ground (arith, e, f)

pub output_length-append :
    (x t : List ℕ)
    → 4 ≤ length t
    → output_length (encode x ++ t) ≡ 3 * number_of_groups (length x) + output_length t
unfolding encode number_of_groups
output_length-append [] t h = omega arith
output_length-append (a ∷ []) t h = output_length-group _ _ _ _ t h
output_length-append (a ∷ b ∷ []) t h = output_length-group _ _ _ _ t h
output_length-append (a ∷ b ∷ c ∷ rest) t h =
    let e : 4 ≤ length (encode rest ++ t) = omega (arith, length-append (encode rest) t) in
    output_length-group _ _ _ _ (encode rest ++ t) e ∙ ground (arith, output_length-append rest t h)

pub encode-nonempty : (a : ℕ) (rest : List ℕ) → 4 ≤ length (encode (a ∷ rest))
unfolding number_of_groups
encode-nonempty a rest = ground (arith, length-encode (a ∷ rest))

pub output_length-encode :
    (bytes : List ℕ) → All IsByte bytes → output_length (encode bytes) ≡ length bytes
unfolding encode output_length
output_length-encode [] h = refl
output_length-encode (a ∷ []) h = refl
output_length-encode (a ∷ b ∷ []) (ha, (hb, h)) =
    let e = (bytes-Group a b 0 ha hb (omega arith)).low_third.no_padding in rw e refl
output_length-encode (a ∷ b ∷ c ∷ []) (ha, (hb, (hc, h))) =
    let e = (bytes-Group a b c ha hb hc).fourth.no_padding in rw e refl
output_length-encode (a ∷ b ∷ c ∷ d ∷ rest) (ha, (hb, (hc, h))) =
    output_length-group _ _ _ _ (encode (d ∷ rest)) (encode-nonempty d rest)
    ∙ omega (arith, output_length-encode (d ∷ rest) h)

-- How many bytes a decoded group has.
group_size : ℕ → ℕ → ℕ
group_size c d = if characters c d == 4 then 3 else if characters c d == 3 then 2 else 1

group_size-le : (c d : ℕ) → group_size c d ≤ 3
unfolding group_size
group_size-le c d = ground arith

-- A round writes the bytes of its group or none.
length-group :
    (a b c d : ℕ) (later : List ℕ)
    → length (written_before (decode_group a b c d (some [])) later) ≤ group_size c d + length later
unfolding decode_group group_size written_before
length-group a b c d later = ground arith

length-last :
    (a b c d : ℕ)
    → length (written_before (decode_group a b c d (some [])) [])
      ≤ output_length (a ∷ b ∷ c ∷ d ∷ [])
unfolding output_length group_size characters
length-last a b c d = ground (arith, length-group a b c d [])

-- What a round answers is what is written from it on, if the later rounds answer what they write.
group_answers :
    (a b c d : ℕ) (rest : List ℕ) (answer : Option (List ℕ))
    → answer_or answer rest ≡ rest
    → answer_or (decode_group a b c d answer) (written_before (decode_group a b c d (some [])) rest)
      ≡ written_before (decode_group a b c d (some [])) rest
unfolding decode_group written_before
group_answers a b c d rest none h = ground arith
group_answers a b c d rest (some bytes) h = ground (arith, h)

decode-answers : (input : List ℕ) → answer_or (decode input) (written input) ≡ written input
unfolding decode written
decode-answers [] = refl
decode-answers (a ∷ []) = refl
decode-answers (a ∷ b ∷ []) = refl
decode-answers (a ∷ b ∷ c ∷ []) = refl
decode-answers (a ∷ b ∷ c ∷ d ∷ rest) =
    group_answers a b c d (written rest) (decode rest) (decode-answers rest)

length-written :
    (input : List ℕ) → length input % 4 ≡ 0 → length (written input) ≤ output_length input
unfolding written
length-written [] h = omega arith
length-written (a ∷ []) h = omega arith
length-written (a ∷ b ∷ []) h = omega arith
length-written (a ∷ b ∷ c ∷ []) h = omega arith
length-written (a ∷ b ∷ c ∷ d ∷ []) h = length-last a b c d
length-written (a ∷ b ∷ c ∷ d ∷ x ∷ rest) h =
    let four : 4 ≤ length (x ∷ rest) = omega arith in
    let below : length (written (x ∷ rest)) ≤ output_length (x ∷ rest) =
      length-written (x ∷ rest) (omega arith) in
    omega (
      arith,
      output_length-group a b c d (x ∷ rest) four,
      group_size-le c d,
      length-group a b c d (written (x ∷ rest)),
    )

-- On any text whose length is a multiple of 4, wherever padding or refused characters stand in it,
-- the decoder writes no more bytes than `output_length`, the length of the bytevector it writes to.
-- Where it answers, the answer is the bytes that it has written.
pub decode-fits :
    (input : List ℕ)
    → length input % 4 ≡ 0
    → (length (written input) ≤ output_length input)
      × (answer_or (decode input) (written input) ≡ written input)
decode-fits input h = (length-written input h, decode-answers input)
