-- ===== src/Symbols/Text.antt =====
-- `strings_eqp` of src/ikarus-symbol-table.c. A string is the list of its 32-bit characters.
use vicare_scheme.Base.{
  ℕ, ◌≡◌, refl, Bool, true, false, ◌&&◌, List, [], ◌∷◌, arith, inl, inr, ◌==◌, ==_iff, ==_refl,
  if◌then◌else◌, length, Bool-cases, false-true,
}
use mathlib.Core.Path.{ap₂}

-- `memcmp` of two data areas is 0.
unfoldable pub same_chars : List ℕ → List ℕ → Bool
same_chars [] ys = true
same_chars (x ∷ xs) [] = true
same_chars (x ∷ xs) (y ∷ ys) = (x == y) && same_chars xs ys

unfoldable pub strings_eqp : List ℕ → List ℕ → Bool
unfolding same_chars
strings_eqp s t = if length s == length t then same_chars s t else false

same_chars-eq : (s t : List ℕ) → length s ≡ length t → same_chars s t ≡ true → s ≡ t
unfolding same_chars
same_chars-eq [] [] e h = refl
same_chars-eq [] (y ∷ t) e h = absurd (omega arith)
same_chars-eq (x ∷ s) [] e h = absurd (omega arith)
same_chars-eq (x ∷ s) (y ∷ t) e h = elim (Bool-cases (x == y)) [
  | inl heads ↦ ap₂ ◌∷◌ ((==_iff x y).0 heads) (same_chars-eq s t (omega arith) (rw heads at h))
  | inr other ↦ absurd (false-true (rw other at h))
]

same_chars_refl : (s : List ℕ) → same_chars s s ≡ true
unfolding same_chars
same_chars_refl [] = refl
same_chars_refl (x ∷ s) = rw (==_refl x, same_chars_refl s) refl

-- Strings are compared as lists of characters.
pub strings_eqp-eq : (s t : List ℕ) → strings_eqp s t ≡ true → s ≡ t
unfolding strings_eqp
strings_eqp-eq s t h = elim (Bool-cases (length s == length t)) [
  | inl e ↦ same_chars-eq s t ((==_iff _ _).0 e) (rw e at h)
  | inr e ↦ absurd (false-true (rw e at h))
]

pub strings_eqp_refl : (s : List ℕ) → strings_eqp s s ≡ true
unfolding strings_eqp
strings_eqp_refl s = rw (==_refl (length s)) (same_chars_refl s)
