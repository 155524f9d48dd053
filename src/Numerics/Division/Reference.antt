-- ===== src/Numerics/Division/Reference.antt =====
-- The laws that are asked of GMP's divisions can be met.
use native.Mathlib.Nat.{mod-lt, div-add-mod', div-lt_iff_lt-mul}
use vicare_scheme.Base.{
  ℕ, ◌+◌, ◌-◌, ◌*◌, ◌/◌, ◌%◌, ◌<◌, ◌≤◌, ◌≡◌, List, arith, length, get_or, take-all, [], ◌∷◌,
}
use vicare_scheme.Numerics.Limbs.{IsLimbs, weight, weight_pos, val, val-lt-weight}
use vicare_scheme.Numerics.Magnitude.{top_split, le-mul_pos}
use vicare_scheme.Numerics.Mpn.Reference.{
  to_limbs, above, above-lt, val-to_limbs, length-to_limbs, to_limbs-IsLimbs, weight_add,
}
use vicare_scheme.Numerics.Division.{Division, Divides, DividesBy}
use vicare_scheme.Numerics.Modulo.{Mod1, IsRemainder}

val-to_limbs_small : (n v : ℕ) → v < weight n → val (to_limbs n v) ≡ v
val-to_limbs_small n v h =
    let none_above : above n v ≡ 0 = omega (arith, above-lt n v 1 (omega arith)) in
    let e = rw none_above at (val-to_limbs n v) in omega (arith, e)

low_weight :
    (ys : List ℕ)
    → 0 < length ys
    → 0 < get_or ys (length ys - 1) 0
    → weight (length ys - 1) ≤ val ys
low_weight ys some_limb top =
    let n : ℕ = length ys in
    let split = rw (take-all n ys (omega arith)) at (top_split n ys some_limb (omega arith)) in
    omega (arith, split, le-mul_pos (weight (n - 1)) (get_or ys (n - 1) 0) top)

quotient_small : (v d w u : ℕ) → v < w * u → u ≤ d → 0 < d → v / d < w
quotient_small v d w u lt le gt = (div-lt_iff_lt-mul gt).1 (bound v d w u lt le)
  where
    bound : (v d w u : ℕ) → v < w * u → u ≤ d → v < w * d
    bound v d w u lt le = grind arith

unfoldable pub divide : List ℕ → List ℕ → List ℕ × List ℕ
divide xs ys =
    (to_limbs (length xs - length ys + 1) (val xs / val ys), to_limbs (length ys) (val xs % val ys))

some_limb : (ys : List ℕ) → 0 < get_or ys (length ys - 1) 0 → 0 < length ys
some_limb [] h = absurd (omega arith)
some_limb (y ∷ ys) h = omega arith

pub divide-Divides :
    (xs ys : List ℕ)
    → IsLimbs xs
    → IsLimbs ys
    → length ys ≤ length xs
    → 0 < get_or ys (length ys - 1) 0
    → Divides xs ys (divide xs ys)
unfolding divide
divide-Divides xs ys hx hy le top =
    let nx : ℕ = length xs in
    let ny : ℕ = length ys in
    let limb = some_limb ys top in
    let low = low_weight ys limb top in
    let gt : 0 < val ys = omega (arith, low, weight_pos (ny - 1)) in
    let e : nx - ny + 1 + (ny - 1) ≡ nx = omega arith in
    let total = rw e at (weight_add (nx - ny + 1) (ny - 1)) in
    let small =
      quotient_small (val xs) (val ys) (weight (nx - ny + 1)) (weight (ny - 1))
        (omega (arith, val-lt-weight xs hx, total)) low gt in
    let rest : val xs % val ys < val ys = mod-lt (val xs) gt in
    let q = val-to_limbs_small (nx - ny + 1) (val xs / val ys) small in
    let r = val-to_limbs_small ny (val xs % val ys) (omega (arith, val-lt-weight ys hy)) in
    record {
      quotient_width = length-to_limbs (nx - ny + 1) (val xs / val ys);
      remainder_width = length-to_limbs ny (val xs % val ys);
      quotient_words = to_limbs-IsLimbs (nx - ny + 1) (val xs / val ys);
      remainder_words = to_limbs-IsLimbs ny (val xs % val ys);
      total = rw (q, r) (div-add-mod' (val xs) (val ys));
      small = rw r rest;
    }

pub divide_by-DividesBy :
    (xs : List ℕ) (c : ℕ)
    → IsLimbs xs
    → 0 < c
    → DividesBy xs c (to_limbs (length xs) (val xs / c), val xs % c)
divide_by-DividesBy xs c h gt =
    let below : val xs < weight (length xs) * 1 = omega (arith, val-lt-weight xs h) in
    let small = quotient_small (val xs) c (weight (length xs)) 1 below gt gt in
    record {
      width = length-to_limbs (length xs) (val xs / c);
      words = to_limbs-IsLimbs (length xs) (val xs / c);
      total = rw (val-to_limbs_small (length xs) (val xs / c) small) (div-add-mod' (val xs) c);
      small = mod-lt (val xs) gt;
    }

abbrev pub division : Division
division = record {
  tdiv_qr = divide;
  divrem_1 = λ xs c. (to_limbs (length xs) (val xs / c), val xs % c);
  tdiv_qr-Divides = divide-Divides;
  divrem_1-DividesBy = λ xs c h gt w. divide_by-DividesBy xs c h gt;
}

pub remainder-IsRemainder : (n c : ℕ) → 0 < c → IsRemainder n c (n % c)
remainder-IsRemainder n c gt = record { q = n / c; total = div-add-mod' n c; small = mod-lt n gt }

abbrev pub remainder : Mod1
remainder = record {
  mod_1 = λ xs c. val xs % c;
  mod_1-IsRemainder = λ xs c h gt w. remainder-IsRemainder (val xs) c gt;
}
