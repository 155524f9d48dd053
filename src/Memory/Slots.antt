-- ===== src/Memory/Slots.antt =====
-- Slot vectors: what a write to a range of slots changes, and how many pages are in use.
use vicare_scheme.Base.{
  ℕ, zero, suc, ◌+◌, ◌<◌, ◌≤◌, ◌≡◌, refl, ap, ◌⊎◌, inl, inr, true, false, List, [], ◌∷◌, ◌++◌,
  arith, ◌==◌, if◌then◌else◌, length, get_or, replicate,
}
use vicare_scheme.Memory.{hole}
use vicare_scheme.Memory.Maps.{set_range, no_holes}

-- The pages in use.
unfoldable pub used : List ℕ → ℕ
used [] = 0
used (x ∷ xs) = (if x == hole then 0 else 1) + used xs

pub length-set_range : (i count v : ℕ) (xs : List ℕ) → length (set_range i count v xs) ≡ length xs
unfolding set_range
length-set_range i count v [] = refl
length-set_range (suc i) count v (x ∷ xs) = ap suc (length-set_range i count v xs)
length-set_range zero zero v (x ∷ xs) = refl
length-set_range zero (suc count) v (x ∷ xs) = ap suc (length-set_range zero count v xs)

pub get_or-set_range_in :
    (i count v : ℕ) (xs : List ℕ) (k : ℕ)
    → i ≤ k
    → k < i + count
    → k < length xs
    → get_or (set_range i count v xs) k 0 ≡ v
unfolding set_range
get_or-set_range_in i count v [] k lo hi h = absurd (omega arith)
get_or-set_range_in (suc i) count v (x ∷ xs) zero lo hi h = absurd (omega arith)
get_or-set_range_in (suc i) count v (x ∷ xs) (suc k) lo hi h =
    get_or-set_range_in i count v xs k (omega arith) (omega arith) (omega arith)
get_or-set_range_in zero zero v (x ∷ xs) k lo hi h = absurd (omega arith)
get_or-set_range_in zero (suc count) v (x ∷ xs) zero lo hi h = refl
get_or-set_range_in zero (suc count) v (x ∷ xs) (suc k) lo hi h =
    get_or-set_range_in zero count v xs k (omega arith) (omega arith) (omega arith)

pub get_or-set_range_out :
    (i count v : ℕ) (xs : List ℕ) (k : ℕ)
    → (k < i) ⊎ (i + count ≤ k)
    → get_or (set_range i count v xs) k 0 ≡ get_or xs k 0
unfolding set_range
get_or-set_range_out i count v [] k h = refl
get_or-set_range_out (suc i) count v (x ∷ xs) zero h = refl
get_or-set_range_out (suc i) count v (x ∷ xs) (suc k) h =
    get_or-set_range_out i count v xs k
      (elim h [ inl a ↦ inl (omega arith) | inr b ↦ inr (omega arith) ])
get_or-set_range_out zero zero v (x ∷ xs) k h = refl
get_or-set_range_out zero (suc count) v (x ∷ xs) zero h =
    absurd (elim h [ inl a ↦ omega arith | inr b ↦ omega arith ])
get_or-set_range_out zero (suc count) v (x ∷ xs) (suc k) h =
    get_or-set_range_out zero count v xs k
      (elim h [ inl a ↦ absurd (omega arith) | inr b ↦ inr (omega arith) ])

pub used-set_range_holes :
    (i count v : ℕ) (xs : List ℕ)
    → ((k : ℕ) → i ≤ k → k < i + count → get_or xs k 0 ≡ hole)
    → i + count ≤ length xs
    → 0 < v
    → used (set_range i count v xs) ≡ count + used xs
unfolding set_range used
used-set_range_holes i count v [] h fits t = omega arith
used-set_range_holes (suc i) count v (x ∷ xs) h fits t =
    let rest =
      used-set_range_holes i count v xs (λ k lo hi. h (suc k) (omega arith) (omega arith))
        (omega arith) t in
    omega (arith, rest)
used-set_range_holes zero zero v (x ∷ xs) h fits t = omega arith
used-set_range_holes zero (suc count) v (x ∷ xs) h fits t =
    let rest =
      used-set_range_holes zero count v xs (λ k lo hi. h (suc k) (omega arith) (omega arith))
        (omega arith) t in
    let first : x ≡ 0 = h zero (omega arith) (omega arith) in ground (arith, rest, first)

pub used-set_range-hole :
    (i count : ℕ) (xs : List ℕ)
    → ((k : ℕ) → i ≤ k → k < i + count → 0 < get_or xs k 0)
    → used (set_range i count hole xs) + count ≡ used xs
unfolding set_range used
used-set_range-hole i zero [] h = omega arith
used-set_range-hole i (suc count) [] h =
    absurd (let bad = h i (omega arith) (omega arith) in omega arith)
used-set_range-hole (suc i) count (x ∷ xs) h =
    let rest = used-set_range-hole i count xs (λ k lo hi. h (suc k) (omega arith) (omega arith)) in
    omega (arith, rest)
used-set_range-hole zero zero (x ∷ xs) h = omega arith
used-set_range-hole zero (suc count) (x ∷ xs) h =
    let rest =
      used-set_range-hole zero count xs (λ k lo hi. h (suc k) (omega arith) (omega arith)) in
    let first : 0 < x = h zero (omega arith) (omega arith) in ground (arith, rest, first)

pub used-append : (xs ys : List ℕ) → used (xs ++ ys) ≡ used xs + used ys
unfolding used
used-append [] ys = omega arith
used-append (x ∷ xs) ys = omega (arith, used-append xs ys)

pub used-holes : (n : ℕ) → used (replicate n 0) ≡ 0
unfolding used
used-holes zero = refl
used-holes (suc n) = omega (arith, used-holes n)

pub no_holes-intro :
    (i count : ℕ) (xs : List ℕ)
    → ((k : ℕ) → i ≤ k → k < i + count → 0 < get_or xs k 0)
    → no_holes i count xs ≡ true
unfolding no_holes
no_holes-intro i zero xs h = refl
no_holes-intro i (suc count) xs h =
    let first : 0 < get_or xs i 0 = h i (omega arith) (omega arith) in
    let e : (get_or xs i 0 == hole) ≡ false = ground arith in
    rw e (no_holes-intro (suc i) count xs (λ k lo hi. h k (omega arith) (omega arith)))

-- A slot behind the first `n`.
pub get_or-append_right :
    (xs ys : List ℕ) (k : ℕ) → get_or (xs ++ ys) (length xs + k) 0 ≡ get_or ys k 0
get_or-append_right [] ys k = ap (λ j. get_or ys j 0) (omega arith)
get_or-append_right (x ∷ xs) ys k =
    let e : suc (length xs) + k ≡ suc (length xs + k) = omega arith in
    rw e (get_or-append_right xs ys k)

pub get_or-past : (xs : List ℕ) (k : ℕ) → length xs ≤ k → get_or xs k 0 ≡ 0
get_or-past [] k h = refl
get_or-past (x ∷ xs) zero h = absurd (omega arith)
get_or-past (x ∷ xs) (suc k) h = get_or-past xs k (omega arith)

pub get_or-holes : (n k : ℕ) → get_or {A = ℕ} (replicate n 0) k 0 ≡ 0
get_or-holes zero k = refl
get_or-holes (suc n) zero = refl
get_or-holes (suc n) (suc k) = get_or-holes n k

pub used-set_range_kept :
    (i count v : ℕ) (xs : List ℕ)
    → ((k : ℕ) → i ≤ k → k < i + count → 0 < get_or xs k 0)
    → 0 < v
    → used (set_range i count v xs) ≡ used xs
unfolding set_range used
used-set_range_kept i count v [] h t = refl
used-set_range_kept (suc i) count v (x ∷ xs) h t =
    let rest =
      used-set_range_kept i count v xs (λ k lo hi. h (suc k) (omega arith) (omega arith)) t in
    omega (arith, rest)
used-set_range_kept zero zero v (x ∷ xs) h t = refl
used-set_range_kept zero (suc count) v (x ∷ xs) h t =
    let rest =
      used-set_range_kept zero count v xs (λ k lo hi. h (suc k) (omega arith) (omega arith)) t in
    let first : 0 < x = h zero (omega arith) (omega arith) in ground (arith, rest, first)
