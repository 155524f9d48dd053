-- ===== src/Symbols/Tables/Buckets.antt =====
-- A bucket without one of its symbols.
use vicare_scheme.Base.{
  ℕ, ◌≡◌, refl, sym, ◌∙◌, ap, inl, inr, true, none, some, List, [], ◌∷◌, ◌==◌, ==_iff, ==_refl,
  Bool-cases, false-true, All, All-map,
}
use vicare_scheme.Symbols.Text.{strings_eqp, strings_eqp-eq}
use vicare_scheme.Symbols.Objects.{Field, text, Symbol, symbol_at}
use vicare_scheme.Symbols.Search.{ok, compare_key, search}
use vicare_scheme.Symbols.Search.Keys.{
  IsPlaced, NoTwins, strings_eqp-apart, compare_key_same, compare_key_other,
}
use vicare_scheme.Symbols.Search.Writes.{found_none}
use vicare_scheme.Symbols.Tables.{contains, remove}

pub All-remove {ℓ} :
    (P : ℕ → Type ℓ) (s : ℕ) (bucket : List ℕ) → All P bucket → All P (remove s bucket)
unfolding remove
All-remove P s [] h = tt
All-remove P s (t ∷ rest) h = elim (Bool-cases (t == s)) [
  | inl here ↦ rw here h.1
  | inr other ↦ rw other (h.0, All-remove P s rest h.1)
]

-- A symbol further down has another key than the first.
head_differs :
    (key_of : Symbol → Field) (heap : List Symbol) (s t : ℕ) (rest : List ℕ)
    → All (λ r. ¬ (key_of (symbol_at heap r) ≡ key_of (symbol_at heap t))) rest
    → contains s rest ≡ true
    → ¬ (key_of (symbol_at heap t) ≡ key_of (symbol_at heap s))
unfolding contains
head_differs key_of heap s t [] a there same = absurd (false-true there)
head_differs key_of heap s t (u ∷ rest) a there same = elim (Bool-cases (u == s)) [
  | inl here ↦ a.0 (ap (λ v. key_of (symbol_at heap v)) ((==_iff u s).0 here) ∙ sym same)
  | inr other ↦ head_differs key_of heap s t rest a.1 (rw other at there) same
]

module _ (key_of : Symbol → Field) (heap : List Symbol) (s : ℕ) (key : List ℕ)
    (has_key : key_of (symbol_at heap s) ≡ text key) where
  -- The other symbols of the bucket have other keys.
  unkeyed :
      (t : ℕ) (rest : List ℕ)
      → t ≡ s
      → All (λ r. ¬ (key_of (symbol_at heap r) ≡ key_of (symbol_at heap t))) rest
      → All (λ r. ¬ (key_of (symbol_at heap r) ≡ text key)) rest
  unkeyed t rest e apart =
      All-map (λ r ne same. ne (same ∙ sym has_key ∙ ap (λ u. key_of (symbol_at heap u)) (sym e)))
        rest apart

  pub remove-unkeyed :
      (bucket : List ℕ)
      → NoTwins key_of heap bucket
      → contains s bucket ≡ true
      → All (λ r. ¬ (key_of (symbol_at heap r) ≡ text key)) (remove s bucket)
  unfolding remove contains
  remove-unkeyed [] apart there = tt
  remove-unkeyed (t ∷ rest) apart there = elim (Bool-cases (t == s)) [
    | inl here ↦ rw here (unkeyed t rest ((==_iff t s).0 here) apart.0)
    | inr other ↦ rw other (
      (λ same. head_differs key_of heap s t rest apart.0 (rw other at there) (same ∙ sym has_key)),
      remove-unkeyed rest apart.1 (rw other at there),
    )
  ]

  pub NoTwins-remove :
      (bucket : List ℕ) → NoTwins key_of heap bucket → NoTwins key_of heap (remove s bucket)
  unfolding remove
  NoTwins-remove [] apart = tt
  NoTwins-remove (t ∷ rest) apart = elim (Bool-cases (t == s)) [
    | inl here ↦ rw here apart.1
    | inr other ↦ rw other (All-remove _ s rest apart.0, NoTwins-remove rest apart.1)
  ]

  -- Other strings are found as before.
  pub search-remove :
      (k : List ℕ) (bucket : List ℕ)
      → ¬ (key ≡ k)
      → search key_of k heap (remove s bucket) ≡ search key_of k heap bucket
  unfolding remove search
  search-remove k [] ne = refl
  search-remove k (t ∷ rest) ne = elim (Bool-cases (t == s)) [
    | inl here ↦
        rw (here, (==_iff t s).0 here, has_key)
          (sym (compare_key_other k key s (search key_of k heap rest) ne))
    | inr other ↦ rw other (rw (search-remove k rest ne) refl)
  ]

-- A string that no symbol of the bucket has is not found.
pub search-unkeyed :
    (key_of : Symbol → Field) (heap : List Symbol) (i : ℕ) (key bucket : List ℕ)
    → All (IsPlaced key_of heap i) bucket
    → All (λ r. ¬ (key_of (symbol_at heap r) ≡ text key)) bucket
    → search key_of key heap bucket ≡ ok none
unfolding search
search-unkeyed key_of heap i key [] h a = refl
search-unkeyed key_of heap i key (s ∷ rest) h a =
    let p = h.0 in
    let ne : ¬ (p.key ≡ key) = λ e. a.0 (p.has_key ∙ ap text e) in
    rw p.has_key (
      compare_key_other key p.key s (search key_of key heap rest) ne
      ∙ search-unkeyed key_of heap i key rest h.1 a.1)

-- A symbol is found by its own string exactly where it is in the bucket.
module _ (key_of : Symbol → Field) (heap : List Symbol) (i s : ℕ) (key : List ℕ)
    (has_key : key_of (symbol_at heap s) ≡ text key) where
  pub contains-search :
      (bucket : List ℕ)
      → All (IsPlaced key_of heap i) bucket
      → NoTwins key_of heap bucket
      → contains s bucket ≡ true
      → search key_of key heap bucket ≡ ok (some s)
  unfolding search contains
  contains-search [] h apart there = absurd (false-true there)
  contains-search (t ∷ rest) h apart there =
      let later = search key_of key heap rest in
      elim (Bool-cases (t == s)) [
        | inl here ↦ rw ((==_iff t s).0 here, has_key) (compare_key_same key s later)
        | inr other ↦
            let p = h.0 in
            let ne : ¬ (p.key ≡ key) = λ e.
              head_differs key_of heap s t rest apart.0 (rw other at there)
                (p.has_key ∙ ap text e ∙ sym has_key) in
            rw p.has_key (
              compare_key_other key p.key t later ne
              ∙ contains-search rest h.1 apart.1 (rw other at there))
      ]

  same_symbol : (t : ℕ) → ok (some t) ≡ ok (some s) → t ≡ s
  same_symbol t e = cc

  pub search-contains :
      (bucket : List ℕ)
      → All (IsPlaced key_of heap i) bucket
      → search key_of key heap bucket ≡ ok (some s)
      → contains s bucket ≡ true
  unfolding search contains
  search-contains [] h found = absurd (found_none s found)
  search-contains (t ∷ rest) h found = elim (Bool-cases (t == s)) [
    | inl here ↦ rw here refl
    | inr other ↦
        let p = h.0 in
        let later = search key_of key heap rest in
        let step = rw p.has_key at found in
        rw other (elim (Bool-cases (strings_eqp p.key key)) [
          | inl same ↦
              let e = strings_eqp-eq p.key key same in
              let first =
                sym (compare_key_same key t later)
                ∙ ap (λ k. compare_key key t (text k) later) (sym e)
                ∙ step in
              let e₂ = rw (same_symbol t first) at other in absurd (false-true (sym e₂ ∙ ==_refl s))
          | inr apart ↦
              let ne = strings_eqp-apart p.key key apart in
              search-contains rest h.1 (sym (compare_key_other key p.key t later ne) ∙ step)
        ])
  ]
