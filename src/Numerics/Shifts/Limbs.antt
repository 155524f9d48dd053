-- ===== src/Numerics/Shifts/Limbs.antt =====
-- A shift to the left on limbs, and powers of 2.
use Prim.Native.Nat.{bit_or, bit_or-bitwise, digits, max}
use native.Mathlib.Nat.{mod-lt, div-add-mod, div-lt_iff_lt-mul}
use vicare_scheme.Base.{
  ℕ, zero, suc, ◌+◌, ◌-◌, ◌*◌, ◌/◌, ◌%◌, ◌^◌, ◌<◌, ◌≤◌, ◌≡◌, refl, sym, ◌∙◌, List, [], ◌∷◌, arith,
  length,
}
use vicare_scheme.Numerics.Words.{word_base}
use vicare_scheme.Numerics.Limbs.{IsLimbs, weight, val}
use vicare_scheme.Numerics.Shifts.{shift_up}

or_digits_zero : (n a : ℕ) → a ≤ n → digits (λ b. b) max n a 0 ≡ a
or_digits_zero zero zero h = refl
or_digits_zero zero (suc a) h = absurd (omega arith)
or_digits_zero (suc n) zero h = refl
or_digits_zero (suc n) (suc a) h = omega (arith, or_digits_zero n (suc a / 2) (omega arith))

pow_suc : (m : ℕ) → 2 ^ suc m ≡ 2 * 2 ^ m
pow_suc m = omega arith

half : (a p : ℕ) → a * (2 * p) ≡ 2 * (a * p)
half a p = grind arith

or_digits_disjoint :
    (m n v a c : ℕ) → v ≡ a * 2 ^ m → v ≤ n → c < 2 ^ m → digits (λ b. b) max n v c ≡ v + c
or_digits_disjoint zero n v a c e h lt =
    let c0 : c ≡ 0 = omega arith in rw c0 (or_digits_zero n v h ∙ omega arith)
or_digits_disjoint (suc m) zero v a c e h lt = omega arith
or_digits_disjoint (suc m) (suc n) zero a c e h lt = omega arith
or_digits_disjoint (suc m) (suc n) (suc v) a c e h lt =
    let p = pow_suc m in
    let twice : suc v ≡ 2 * (a * 2 ^ m) = e ∙ rw p (half a (2 ^ m)) in
    omega (
      arith,
      twice,
      or_digits_disjoint m n (suc v / 2) a (c / 2) (omega arith) (omega arith) (omega arith),
    )

pub bit_or-disjoint : (m a c : ℕ) → c < 2 ^ m → bit_or (a * 2 ^ m) c ≡ a * 2 ^ m + c
bit_or-disjoint m a c lt =
    bit_or-bitwise (a * 2 ^ m) c
    ∙ or_digits_disjoint m (a * 2 ^ m) (a * 2 ^ m) a c refl (omega arith) lt

pow_add : (a b : ℕ) → 2 ^ (a + b) ≡ 2 ^ a * 2 ^ b
pow_add zero b = let e : 0 + b ≡ b = omega arith in rw e (omega arith)
pow_add (suc a) b =
    let e : suc a + b ≡ suc (a + b) = omega arith in
    rw (e, pow_suc (a + b), pow_suc a, pow_add a b) (assoc (2 ^ a) (2 ^ b))
  where
    assoc : (x y : ℕ) → 2 * (x * y) ≡ 2 * x * y
    assoc x y = grind arith

complementary : (m : ℕ) → m ≤ 64 → 2 ^ m * 2 ^ (64 - m) ≡ word_base
complementary m h = let e : m + (64 - m) ≡ 64 = omega arith in sym (pow_add m (64 - m)) ∙ rw e refl

pub pow_pos : (m : ℕ) → 0 < 2 ^ m
pow_pos zero = omega arith
pow_pos (suc m) = omega (arith, pow_pos m)

word_mod : (q r : ℕ) → r < word_base → (word_base * q + r) % word_base ≡ r
word_mod q r h = omega arith

regroup : (p d q r b w : ℕ) → p * d ≡ w → d * q + r ≡ b → b * p ≡ w * q + r * p
regroup p d q r b w e f = rw (← e, ← f) (expand p d q r)
  where
    expand : (p d q r : ℕ) → (d * q + r) * p ≡ p * d * q + r * p
    expand p d q r = grind arith

below_product : (p d r w : ℕ) → p * d ≡ w → r < d → 0 < p → r * p < w
below_product p d r w e lt gt = grind arith

-- A limb of the result: the low bits of a limb, shifted up, over the carry from below.
pub record Limb (m b carry : ℕ) : Type 0 where
  pub limb : bit_or (b * 2 ^ m % word_base) carry ≡ b % 2 ^ (64 - m) * 2 ^ m + carry
  pub fits : b % 2 ^ (64 - m) * 2 ^ m + carry < word_base
  pub number : b % 2 ^ (64 - m) * 2 ^ m + word_base * (b / 2 ^ (64 - m)) ≡ b * 2 ^ m
  pub next : b / 2 ^ (64 - m) < 2 ^ m

below_sum : (p d r c w : ℕ) → p * d ≡ w → r < d → c < p → r * p + c < w
below_sum p d r c w e lt cl = grind arith

pub shifted-Limb : (m b carry : ℕ) → m ≤ 64 → b < word_base → carry < 2 ^ m → Limb m b carry
shifted-Limb m b carry small lt low =
    let p : ℕ = 2 ^ m in
    let d : ℕ = 2 ^ (64 - m) in
    let whole = complementary m small in
    let q : ℕ = b / d in
    let r : ℕ = b % d in
    let rest : r < d = mod-lt b (pow_pos (64 - m)) in
    let total : b * p ≡ word_base * q + r * p =
      regroup p d q r b word_base whole (div-add-mod b d) in
    let high : r * p < word_base = below_product p d r word_base whole rest (pow_pos m) in
    let shifted : b * p % word_base ≡ r * p = rw total (word_mod q (r * p) high) in
    record {
      limb = rw shifted (bit_or-disjoint m r carry low);
      fits = below_sum p d r carry word_base whole rest low;
      number = omega (arith, total);
      next = (div-lt_iff_lt-mul (pow_pos (64 - m))).1 (rw whole lt);
    }

step_total :
    (p w b v r q c : ℕ) → r * p + w * q ≡ b * p → r * p + c + w * (v * p + q) ≡ (b + w * v) * p + c
step_total p w b v r q c e = omega (arith, e, inner w (v * p) q, outer p w b v)
  where
    inner : (w x q : ℕ) → w * (x + q) ≡ w * x + w * q
    inner w x q = grind arith

    outer : (p w b v : ℕ) → (b + w * v) * p ≡ b * p + w * (v * p)
    outer p w b v = grind arith

-- The loop multiplies by a power of 2.
pub val-shift_up :
    (m : ℕ) (xs : List ℕ) (carry : ℕ)
    → m ≤ 64
    → IsLimbs xs
    → carry < 2 ^ m
    → val (shift_up m carry xs) ≡ val xs * 2 ^ m + carry
unfolding shift_up val
val-shift_up m [] carry small h low = omega arith
val-shift_up m (b ∷ rest) carry small h low =
    let l = shifted-Limb m b carry small h.0 low in
    rw (l.limb, val-shift_up m rest (b / 2 ^ (64 - m)) small h.1 l.next)
      (step_total (2 ^ m) word_base b (val rest) (b % 2 ^ (64 - m)) (b / 2 ^ (64 - m)) carry
        l.number)

pub length-shift_up :
    (m : ℕ) (xs : List ℕ) (carry : ℕ) → length (shift_up m carry xs) ≡ length xs + 1
unfolding shift_up
length-shift_up m [] carry = refl
length-shift_up m (b ∷ rest) carry = omega (arith, length-shift_up m rest (b / 2 ^ (64 - m)))

pub base_pow : (m : ℕ) → m ≤ 64 → 2 ^ m ≤ word_base
base_pow m small = grind (arith, complementary m small, pow_pos (64 - m))

pub shift_up-IsLimbs :
    (m : ℕ) (xs : List ℕ) (carry : ℕ)
    → m ≤ 64
    → IsLimbs xs
    → carry < 2 ^ m
    → IsLimbs (shift_up m carry xs)
unfolding shift_up
shift_up-IsLimbs m [] carry small h low = (omega (arith, base_pow m small), tt)
shift_up-IsLimbs m (b ∷ rest) carry small h low =
    let l = shifted-Limb m b carry small h.0 low in
    (rw l.limb l.fits, shift_up-IsLimbs m rest (b / 2 ^ (64 - m)) small h.1 l.next)

-- Whole limbs of zeros multiply by a power of 2.
pub weight-pow : (k b : ℕ) → 2 ^ (64 * k + b) ≡ weight k * 2 ^ b
unfolding weight
weight-pow zero b = let e : 64 * 0 + b ≡ b = omega arith in rw e (omega arith)
weight-pow (suc k) b =
    let e : 64 * suc k + b ≡ 64 + (64 * k + b) = omega arith in
    rw (e, pow_add 64 (64 * k + b), weight-pow k b) (omega arith)
