-- ===== src/Conversions/Exact.antt =====
-- The conversions are exact.
use vicare_scheme.Base.{
  ℕ, ◌-◌, ◌^◌, ◌<◌, ◌≤◌, ◌≡◌, refl, ap, ◌∙◌, inl, inr, Bool, true, false, [], ◌∷◌, arith, leb, ◌==◌,
  ==_iff, Bool-cases, if◌then◌else◌, take,
}
use vicare_scheme.Base.Int.{ℤ, pos, signed}
use vicare_scheme.Numerics.Words.{
  word_base, fix, unfix, negate, is_negative, fixnum_int, word_int, limit, limit-ge,
  most_positive_fixnum,
}
use vicare_scheme.Numerics.Limbs.{val, val-take_one, weight-ge_base}
use vicare_scheme.Numerics.Bignum.{
  Block, Value, fixnum, bignum, first_word, negative_bit, negative_bit-first_word,
  limb_count-first_word, first_word-tagged, IsBignum, IsInteger, int_of, block_int, count_of,
  magnitude,
}
use vicare_scheme.Numerics.Magnitude.{IsBignum-Bounds}
use vicare_scheme.Numerics.Addition.{is_positive}
use vicare_scheme.Conversions.{signed_value}
use vicare_scheme.Conversions.FromC.{from_long, from_ulong}
use vicare_scheme.Conversions.ToC.{data_word, signed_limb}

-- A well-formed value, and the integer it is.
abbrev pub Exact : ℤ → Value → Type 0
Exact i v = IsInteger v × (int_of v ≡ i)

one_limb-IsBignum :
    (s : Bool) (n : ℕ)
    → n < word_base
    → limit s < n
    → IsBignum (record { first = first_word 1 s; limbs = n ∷ [] })
one_limb-IsBignum s n fits large =
    let e = limb_count-first_word 1 s (omega arith) in
    let g = negative_bit-first_word 1 s (omega arith) in
    record {
      tagged = first_word-tagged 1 s (omega arith);
      count_pos = rw e (omega arith);
      count_fits = rw e (omega arith);
      held = rw e (omega arith);
      words = (fits, tt);
      last_limb_pos = rw e (omega arith);
      large = rw (e, g) (λ one. large);
    }

one_limb-Exact :
    (s : Bool) (n : ℕ)
    → n < word_base
    → limit s < n
    → Exact (signed s n) (bignum (record { first = first_word 1 s; limbs = n ∷ [] }))
one_limb-Exact s n fits large =
    let b : Block = record { first = first_word 1 s; limbs = n ∷ [] } in
    let e = limb_count-first_word 1 s (omega arith) in
    let g = negative_bit-first_word 1 s (omega arith) in
    (one_limb-IsBignum s n fits large, rw (e, g, val-take_one (n ∷ []) (omega arith)) refl)

pub fixnum-Exact :
    (n : ℕ) → unfix (fix n) ≡ n → n < word_base → Exact (signed_value 64 n) (fixnum (fix n))
unfolding fix unfix signed_value fixnum_int word_int
fixnum-Exact n e h = ground arith

long_plus :
    (n : ℕ)
    → n < word_base
    → (unfix (fix n) == n) ≡ false
    → is_positive n ≡ true
    → (limit false < n) × (signed_value 64 n ≡ signed false n)
unfolding fix unfix signed_value signed limit is_positive is_negative
long_plus n h over plus = ground arith

long_minus :
    (n : ℕ)
    → n < word_base
    → (unfix (fix n) == n) ≡ false
    → is_positive n ≡ false
    → (limit true < negate n)
      × (negate n < word_base)
      × (signed_value 64 n ≡ signed true (negate n))
unfolding fix unfix signed_value signed limit is_positive is_negative negate
long_minus n h over minus = ground arith

pub from_long-Exact : (n : ℕ) → n < word_base → Exact (signed_value 64 n) (from_long n)
unfolding from_long
from_long-Exact n h = elim (Bool-cases (unfix (fix n) == n)) [
  | inl fits ↦ rw fits (fixnum-Exact n ((==_iff _ _).0 fits) h)
  | inr over ↦ rw over (elim (Bool-cases (is_positive n)) [
    | inl plus ↦
        rw plus (let p = long_plus n h (over) plus in rw p.1 (one_limb-Exact false n h p.0))
    | inr minus ↦ rw minus (
        let (large, word, e) = long_minus n h over minus in
        rw e (one_limb-Exact true (negate n) word large))
  ])
]

pub small-Exact : (n : ℕ) → n ≤ most_positive_fixnum → Exact (pos n) (fixnum (fix n))
unfolding fix unfix fixnum_int word_int
small-Exact n h = ground arith

ulong_large :
    (n : ℕ)
    → n < word_base
    → leb n most_positive_fixnum ≡ false
    → Exact (pos n) (bignum (record { first = first_word 1 false; limbs = n ∷ [] }))
unfolding signed limit
ulong_large n h over = one_limb-Exact false n h (ground arith)

pub from_ulong-Exact : (n : ℕ) → n < word_base → Exact (pos n) (from_ulong n)
unfolding from_ulong
from_ulong-Exact n h = elim (Bool-cases (leb n most_positive_fixnum)) [
  | inl fits ↦ rw fits (small-Exact n (ground arith))
  | inr over ↦ rw over (ulong_large n h over)
]

-- A bignum that fits a word has one limb.
pub one_limb_left :
    (b : Block)
    → IsBignum b
    → magnitude b < word_base
    → (magnitude b ≡ data_word b) × (limit (negative_bit b.first) < data_word b)
one_limb_left b h small = elim (Bool-cases (count_of b == 1)) [
  | inl one ↦
      let c = (==_iff _ 1).0 one in
      (
        ap val (ap (λ k. take k b.limbs) c) ∙ val-take_one b.limbs (omega (arith, h.held)),
        rw c at (h.large c),
      )
  | inr many ↦
      let t = weight-ge_base (count_of b - 1) (ground (arith, h.count_pos)) in
      absurd (omega (arith, (IsBignum-Bounds h).lower))
]

word_magnitude :
    (s : Bool) (m n : ℕ)
    → n < word_base
    → signed s m ≡ signed_value 64 n
    → (m < word_base) × ((if s then negate m else m) ≡ n)
unfolding signed signed_value negate
word_magnitude true m n h e = ground arith
word_magnitude false m n h e = ground arith

natural_magnitude : (s : Bool) (m n : ℕ) → signed s m ≡ pos n → limit s < m → (s ≡ false) × (m ≡ n)
unfolding signed limit
natural_magnitude true m n e h = ground arith
natural_magnitude false m n e h = ground arith

narrow_magnitude :
    (s : Bool) (m w n : ℕ) → 2 ^ w ≤ 2 ^ 32 → n < 2 ^ w → signed s m ≡ signed_value w n → m ≤ 2 ^ 32
unfolding signed signed_value
narrow_magnitude true m w n h f e = ground arith
narrow_magnitude false m w n h f e = ground arith

pub signed_limb-exact :
    (b : Block) (n : ℕ)
    → IsBignum b
    → n < word_base
    → block_int b ≡ signed_value 64 n
    → signed_limb b ≡ n
unfolding signed_limb
signed_limb-exact b n h fits e =
    let (small, exact) = word_magnitude (negative_bit b.first) (magnitude b) n fits e in
    let (one, large) = one_limb_left b h small in rw (← one) exact

natural_small : (s : Bool) (m n : ℕ) → n < word_base → signed s m ≡ pos n → m < word_base
unfolding signed
natural_small true m n h e = ground arith
natural_small false m n h e = ground arith

pub data_word-exact :
    (b : Block) (n : ℕ)
    → IsBignum b
    → n < word_base
    → block_int b ≡ pos n
    → (negative_bit b.first ≡ false) × (data_word b ≡ n)
data_word-exact b n h fits e =
    let small = natural_small (negative_bit b.first) (magnitude b) n fits e in
    let (one, large) = one_limb_left b h small in
    natural_magnitude (negative_bit b.first) (data_word b) n (rw one at e) large

-- No bignum is in the range of a narrow type.
pub not_narrow :
    (b : Block) (w n : ℕ)
    → IsBignum b
    → 2 ^ w ≤ 2 ^ 32
    → n < 2 ^ w
    → block_int b ≡ signed_value w n
    → ⊥
not_narrow b w n h narrow fits e =
    let small = narrow_magnitude (negative_bit b.first) (magnitude b) w n narrow fits e in
    let (one, large) = one_limb_left b h (omega arith) in
    omega (arith, limit-ge (negative_bit b.first))

pub not_narrow_natural : (b : Block) (n : ℕ) → IsBignum b → n < 2 ^ 32 → block_int b ≡ pos n → ⊥
not_narrow_natural b n h fits e =
    let small = natural_small (negative_bit b.first) (magnitude b) n (omega arith) e in
    let (one, large) = one_limb_left b h small in
    let (sign, same) = data_word-exact b n h (omega arith) e in
    omega (arith, limit-ge (negative_bit b.first))
