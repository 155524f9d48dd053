-- ===== src/Bytes/Bits.antt =====
-- Facts about all numbers below a small bound, established by trying each of them.
use Prim.Native.Nat.{bit_and}
use vicare_scheme.Base.{
  ℕ, zero, suc, ◌%◌, ◌<◌, ◌≡◌, refl, Bool, true, false, arith, ◌==◌, if◌then◌else◌,
}

module _ (test : ℕ → Bool) where
  unfoldable pub holds_below : ℕ → Bool
  holds_below zero = true
  holds_below (suc n) = if test n then holds_below n else false

  holds_below-elim : (n : ℕ) → holds_below n ≡ true → (i : ℕ) → i < n → test i ≡ true
  unfolding holds_below
  holds_below-elim zero e i h = absurd (omega arith)
  holds_below-elim (suc n) e i h = ground (arith, holds_below-elim n (ground arith) i)

pub by_trial :
    (test : ℕ → Bool) (n : ℕ) → holds_below test n ≡ true → (i : ℕ) → i < n → test i ≡ true
by_trial test n e i h = holds_below-elim test n e i h

pub agree_below :
    (f g : ℕ → ℕ) (n : ℕ) → holds_below (λ i. f i == g i) n ≡ true → (i : ℕ) → i < n → f i ≡ g i
agree_below f g n e i h = ground (arith, by_trial (λ i. f i == g i) n e i h)

pub bit_and-15 : (b : ℕ) → b < 256 → bit_and b 15 ≡ b % 16
unfolding holds_below
bit_and-15 = agree_below (λ b. bit_and b 15) (λ b. b % 16) 256 refl

pub bit_and-63 : (v : ℕ) → v < 16384 → bit_and 63 v ≡ v % 64
unfolding holds_below
bit_and-63 = agree_below (λ v. bit_and 63 v) (λ v. v % 64) 16384 refl

pub bit_and-255 : (v : ℕ) → v < 16384 → bit_and 255 v ≡ v % 256
unfolding holds_below
bit_and-255 = agree_below (λ v. bit_and 255 v) (λ v. v % 256) 16384 refl
