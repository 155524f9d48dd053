-- ===== src/Base/Int.antt =====
-- Signed integers over the native numbers, under the library's names. Orders and sums go through
-- the two parts of an integer, which are numbers.
use vicare_scheme.Base.{
  ℕ, suc, ◌+◌, ◌-◌, ◌*◌, ◌≡◌, arith, leb, if◌then◌else◌, Bool, true, false, not, ◌≤◌,
}

-- `negsuc n` is -(n + 1).
pub data ℤ : Type 0 where
  pos : ℕ → ℤ
  negsuc : ℕ → ℤ

abbrev pub pos_part : ℤ → ℕ
pos_part (pos n) = n
pos_part (negsuc n) = 0

abbrev pub neg_part : ℤ → ℕ
neg_part (pos n) = 0
neg_part (negsuc n) = suc n

-- a - b, as an integer.
abbrev pub sub_ℕ : ℕ → ℕ → ℤ
sub_ℕ a b = if leb b a then pos (a - b) else negsuc (b - a - 1)

infixl 65 ◌+ℤ◌ ◌-ℤ◌
infixl 70 ◌*ℤ◌
unfoldable pub ◌+ℤ◌ : ℤ → ℤ → ℤ
a +ℤ b = sub_ℕ (pos_part a + pos_part b) (neg_part a + neg_part b)

unfoldable pub ◌-ℤ◌ : ℤ → ℤ → ℤ
a -ℤ b = sub_ℕ (pos_part a + neg_part b) (neg_part a + pos_part b)

unfoldable pub ◌*ℤ◌ : ℤ → ℤ → ℤ
a *ℤ b =
    sub_ℕ (pos_part a * pos_part b + neg_part a * neg_part b)
      (pos_part a * neg_part b + neg_part a * pos_part b)

-- The integer of a sign and a magnitude; `true` is negative.
unfoldable pub signed : Bool → ℕ → ℤ
signed false n = pos n
signed true n = sub_ℕ 0 n

pub +ℤ_parts :
    (a b : ℤ)
    → pos_part (a +ℤ b) + neg_part a + neg_part b ≡ neg_part (a +ℤ b) + pos_part a + pos_part b
unfolding ◌+ℤ◌
+ℤ_parts a b = ground arith

pub -ℤ_parts :
    (a b : ℤ)
    → pos_part (a -ℤ b) + neg_part a + pos_part b ≡ neg_part (a -ℤ b) + pos_part a + neg_part b
unfolding ◌-ℤ◌
-ℤ_parts a b = ground arith

pub eq_of_parts : (a b : ℤ) → pos_part a + neg_part b ≡ pos_part b + neg_part a → a ≡ b
eq_of_parts a b h = ground arith

pub signed_pos : (n : ℕ) → (pos_part (signed false n) ≡ n) × (neg_part (signed false n) ≡ 0)
unfolding signed
signed_pos n = ground arith

pub signed_neg : (n : ℕ) → (pos_part (signed true n) ≡ 0) × (neg_part (signed true n) ≡ n)
unfolding signed
signed_neg n = ground arith

pub signed-+ℤ_same : (s : Bool) (n m : ℕ) → signed s n +ℤ signed s m ≡ signed s (m + n)
unfolding signed ◌+ℤ◌
signed-+ℤ_same false n m = ground arith
signed-+ℤ_same true n m = ground arith

-- The greater magnitude gives its sign.
pub signed-+ℤ_other :
    (s : Bool) (n m : ℕ) → n ≤ m → signed (not s) n +ℤ signed s m ≡ signed s (m - n)
unfolding signed ◌+ℤ◌
signed-+ℤ_other false n m h = ground arith
signed-+ℤ_other true n m h = ground arith

-- Operands of different signs, by which magnitude is the greater.
pub signed-+ℤ_second :
    (s t : Bool) (n m : ℕ) → s ≡ not t → n ≤ m → signed s n +ℤ signed t m ≡ signed t (m - n)
signed-+ℤ_second s t n m e h = rw e (signed-+ℤ_other t n m h)

pub signed-+ℤ_first :
    (s t : Bool) (n m : ℕ) → s ≡ not t → m ≤ n → signed s n +ℤ signed t m ≡ signed s (n - m)
unfolding signed ◌+ℤ◌
signed-+ℤ_first s true n m e h = rw e (ground arith)
signed-+ℤ_first s false n m e h = rw e (ground arith)

pub -ℤ_signed : (a : ℤ) (t : Bool) (m : ℕ) → a -ℤ signed t m ≡ a +ℤ signed (not t) m
unfolding signed ◌+ℤ◌ ◌-ℤ◌
-ℤ_signed a false m = ground arith
-ℤ_signed a true m = ground arith

pub -ℤ_self : (a : ℤ) → a -ℤ a ≡ pos 0
unfolding ◌-ℤ◌
-ℤ_self a = ground arith

pub signed-injective : (s : Bool) (n m : ℕ) → signed s n ≡ signed s m → n ≡ m
unfolding signed
signed-injective false n m h = ground arith
signed-injective true n m h = ground arith

pub zero-+ℤ : (a : ℤ) → pos 0 +ℤ a ≡ a
unfolding ◌+ℤ◌
zero-+ℤ a = ground arith

pub +ℤ_comm : (a b : ℤ) → a +ℤ b ≡ b +ℤ a
unfolding ◌+ℤ◌
+ℤ_comm a b = ground arith

pub ruleset int_laws = (arith, +ℤ_parts, -ℤ_parts, eq_of_parts, signed_pos, signed_neg)
