-- ===== src/Numerics/Difference.antt =====
-- The part that `ikrt_bnbnplus` and `ikrt_bnbnminus` share: the limbs that agree from the top are
-- passed over, and the lesser magnitude is taken from the greater.
use vicare_scheme.Base.{
  ℕ, zero, suc, ◌+◌, ◌-◌, ◌*◌, ◌^◌, ◌<◌, ◌≤◌, ◌≡◌, refl, ◌∙◌, inl, inr, Bool, false, List, arith,
  ltb, ◌==◌, ==_iff, if◌then◌else◌, Bool-cases, length, get_or, take, length-take, take-all,
  All-take,
}
use vicare_scheme.Base.Int.{signed}
use vicare_scheme.Numerics.Words.{word_base}
use vicare_scheme.Numerics.Limbs.{IsLimbs, weight, val, val-take-suc, val-take_lt, val-lt-weight}
use vicare_scheme.Numerics.Mpn.{Mpn}
use vicare_scheme.Numerics.Magnitude.{top_split}
use vicare_scheme.Numerics.Bignum.{Outcome, aborted, Computes}
use vicare_scheme.Numerics.Normalize.{normalize, normalize-Computes}

-- How many limbs are left when the equal ones at the top are passed over.
unfoldable pub differing : ℕ → List ℕ → List ℕ → ℕ
differing zero xs ys = zero
differing (suc n) xs ys = if get_or xs n 0 == get_or ys n 0 then differing n xs ys else suc n

-- `mpn_sub` of the first limbs, the test of its borrow, and the normalisation of what is left.
unfoldable pub sub_magnitudes : Mpn → Bool → ℕ → List ℕ → ℕ → List ℕ → Outcome
unfolding normalize
sub_magnitudes gmp sign n₁ xs n₂ ys =
    let (difference, borrow) = gmp.sub (take n₁ xs) (take n₂ ys) in
    if borrow == 0 then normalize n₁ sign difference else aborted

pub sub_magnitudes-Computes :
    (gmp : Mpn) (s : Bool) (n₁ : ℕ) (xs : List ℕ) (n₂ : ℕ) (ys : List ℕ) (m : ℕ)
    → IsLimbs xs
    → IsLimbs ys
    → n₁ ≤ length xs
    → n₂ ≤ length ys
    → 0 < n₂
    → n₂ ≤ n₁
    → n₁ < 2 ^ 60
    → val (take n₁ xs) ≡ m + val (take n₂ ys)
    → Computes (signed s m) (sub_magnitudes gmp s n₁ xs n₂ ys)
unfolding sub_magnitudes
sub_magnitudes-Computes gmp s n₁ xs n₂ ys m hx hy px py pos le fits number =
    let wx = length-take n₁ xs px in
    let wy = length-take n₂ ys py in
    let lx = All-take (λ l. l < word_base) n₁ xs hx in
    let ly = All-take (λ l. l < word_base) n₂ ys hy in
    let d =
      gmp.sub-Subtracts (take n₁ xs) (take n₂ ys) lx ly (omega (arith, wy))
        (omega (arith, wx, wy)) in
    let out = gmp.sub (take n₁ xs) (take n₂ ys) in
    let width = d.width ∙ wx in
    let difference = rw wx at d.difference in
    let upper = rw width at (val-lt-weight out.0 d.words) in
    elim (Bool-cases (out.1 == 0)) [
      | inl plain ↦
          let same = rw ((==_iff _ 0).0 plain) at difference in
          let e : val (take n₁ out.0) ≡ m =
            rw (take-all n₁ out.0 (omega (arith, width))) (omega (arith, same)) in
          rw plain (rw e at (normalize-Computes n₁ s out.0 fits (omega (arith, width)) d.words))
      | inr borrowed ↦
          let one : out.1 ≡ 1 = ground (arith, d.borrow) in
          absurd (omega (arith, rw one at difference, upper))
    ]

differing-le : (n : ℕ) (xs ys : List ℕ) → differing n xs ys ≤ n
unfolding differing
differing-le zero xs ys = omega arith
differing-le (suc n) xs ys = ground (arith, differing-le n xs ys)

-- The equal limbs at the top add the same to both numbers.
differing-val :
    (n : ℕ) (xs ys : List ℕ)
    → n ≤ length xs
    → n ≤ length ys
    → val (take n xs) + val (take (differing n xs ys) ys)
      ≡ val (take n ys) + val (take (differing n xs ys) xs)
unfolding differing
differing-val zero xs ys px py = refl
differing-val (suc n) xs ys px py = elim (Bool-cases (get_or xs n 0 == get_or ys n 0)) [
  | inl same ↦
      rw (same, val-take-suc n xs px, val-take-suc n ys py, (==_iff _ _).0 same)
        (omega (arith, differing-val n xs ys (omega arith) (omega arith)))
  | inr other ↦ rw other (omega arith)
]

differing-ne :
    (n : ℕ) (xs ys : List ℕ)
    → 0 < differing n xs ys
    → (get_or xs (differing n xs ys - 1) 0 == get_or ys (differing n xs ys - 1) 0) ≡ false
unfolding differing
differing-ne zero xs ys h = absurd (omega arith)
differing-ne (suc n) xs ys h = elim (Bool-cases (get_or xs n 0 == get_or ys n 0)) [
  | inl same ↦ let h' = rw same at h in rw same (differing-ne n xs ys h')
  | inr other ↦ rw other (let e : suc n - 1 ≡ n = omega arith in rw e other)
]

mul_lt : (w a b : ℕ) → a < b → w * a + w ≤ w * b
mul_lt w a b h = grind arith

-- A greater limb on top makes a greater number.
lt_of_top :
    (n : ℕ) (xs ys : List ℕ)
    → 0 < n
    → n ≤ length xs
    → n ≤ length ys
    → IsLimbs xs
    → get_or xs (n - 1) 0 < get_or ys (n - 1) 0
    → val (take n xs) < val (take n ys)
lt_of_top n xs ys pos px py hx lt = omega (
  arith,
  top_split n xs pos px,
  top_split n ys pos py,
  val-take_lt (n - 1) xs hx (omega arith),
  mul_lt (weight (n - 1)) (get_or xs (n - 1) 0) (get_or ys (n - 1) 0) lt,
)

-- What the limb at the top of those that differ says of the whole numbers.
pub record Compared (k : ℕ) (xs ys : List ℕ) (n : ℕ) : Type 0 where
  pub kept : n ≤ k
  pub same : val (take k xs) + val (take n ys) ≡ val (take k ys) + val (take n xs)
  pub equal : n ≡ 0 → val (take k xs) ≡ val (take k ys)
  pub less : 0 < n → get_or xs (n - 1) 0 < get_or ys (n - 1) 0 → val (take k xs) < val (take k ys)
  pub greater :
      0 < n
      → ltb (get_or xs (n - 1) 0) (get_or ys (n - 1) 0) ≡ false
      → val (take k ys) < val (take k xs)

pub differing-Compared :
    (k : ℕ) (xs ys : List ℕ)
    → k ≤ length xs
    → k ≤ length ys
    → IsLimbs xs
    → IsLimbs ys
    → Compared k xs ys (differing k xs ys)
differing-Compared k xs ys px py hx hy =
    let n = differing k xs ys in
    let le = differing-le k xs ys in
    let same = differing-val k xs ys px py in
    record {
      kept = le;
      same = same;
      equal = λ e. let same' = rw e at same in omega (arith, same');
      less = λ pos lt. omega (arith, same, lt_of_top n xs ys pos (omega arith) (omega arith) hx lt);
      greater = λ pos ge.
          let gt : get_or ys (n - 1) 0 < get_or xs (n - 1) 0 =
            ground (arith, ge, differing-ne k xs ys pos) in
          omega (arith, same, lt_of_top n ys xs pos (omega arith) (omega arith) hy gt);
    }
