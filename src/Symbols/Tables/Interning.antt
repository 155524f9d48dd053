-- ===== src/Symbols/Tables/Interning.antt =====
-- Interning a string in a table.
use vicare_scheme.Base.{
  ℕ, ◌<◌, ◌≡◌, refl, sym, ◌∙◌, ap, inl, inr, none, some, List, [], ◌∷◌, ◌++◌, arith, length,
  get_or-last, length-append, ◌↔◌,
}
use vicare_scheme.Symbols.Objects.{Field, text, Symbol, symbol_at, make_symbol, false_object}
use vicare_scheme.Symbols.Search.{ok, lookup, prepend}
use vicare_scheme.Symbols.Search.Keys.{IsTable, symbol_at-append, text-injective}
use vicare_scheme.Symbols.Search.Writes.{
  lookup-Finds, lookup-append, lookup-prepend, lookup-prepend_other, prepend-IsTable,
  IsTable-append, found_none,
}
use vicare_scheme.Symbols.Tables.{Interned, intern_found, intern_string, intern_unique_string}

-- A table as a map from strings to symbols, before and after a string is interned.
pub record Interns (key_of : Symbol → Field) (key : List ℕ) (new : Symbol) (heap : List Symbol)
    (buckets : List (List ℕ)) (r : Interned) : Type 0 where
  pub valid : IsTable key_of r.heap r.buckets
  pub found : lookup key_of key r.heap r.buckets ≡ ok (some r.symbol)
  pub others :
      (k : List ℕ) → ¬ (key ≡ k) → lookup key_of k r.heap r.buckets ≡ lookup key_of k heap buckets
  pub kept : (s : ℕ) → s < length heap → symbol_at r.heap s ≡ symbol_at heap s
  pub known :
      (s : ℕ)
      → lookup key_of key heap buckets ≡ ok (some s)
      → (r.symbol ≡ s) × ((r.heap ≡ heap) × (r.buckets ≡ buckets))
  pub made :
      lookup key_of key heap buckets ≡ ok none
      → (r.heap ≡ heap ++ new ∷ []) × ((r.symbol ≡ length heap) × (symbol_at r.heap r.symbol ≡ new))

-- The key of the symbol that a lookup finds, and that the symbol exists.
pub lookup-key :
    (key_of : Symbol → Field) (heap : List Symbol) (buckets : List (List ℕ))
    → IsTable key_of heap buckets
    → (key : List ℕ) (s : ℕ) → lookup key_of key heap buckets ≡ ok (some s)
    → (key_of (symbol_at heap s) ≡ text key) × (s < length heap)
lookup-key key_of heap buckets h key s e = elim (lookup-Finds key_of heap buckets h key) [
  | inl nothing ↦ absurd (found_none s (sym nothing.0 ∙ e))
  | inr found ↦ let same = same_symbol found.0 s (sym found.1.0 ∙ e) in rw same at (found.1.1)
]
  where
    same_symbol : (s t : ℕ) → ok (some s) ≡ ok (some t) → s ≡ t
    same_symbol s t e = cc

last_symbol : (heap : List Symbol) (new : Symbol) → symbol_at (heap ++ new ∷ []) (length heap) ≡ new
unfolding symbol_at
last_symbol heap new = get_or-last heap new _

module _ (key_of : Symbol → Field) (key : List ℕ) (new : Symbol) (heap : List Symbol)
    (buckets : List (List ℕ)) (h : IsTable key_of heap buckets)
    (has_key : key_of new ≡ text key) where
  added :
      lookup key_of key heap buckets ≡ ok none
      → Interns key_of key new heap buckets (record {
        heap = heap ++ new ∷ [];
        buckets = prepend key (length heap) buckets;
        symbol = length heap;
      })
  added absent =
      let longer = heap ++ new ∷ [] in
      let s = length heap in
      let live : s < length longer = let e = length-append heap (new ∷ []) in omega arith in
      let wider = IsTable-append key_of heap buckets h (new ∷ []) in
      let key_there = ap key_of (last_symbol heap new) ∙ has_key in
      let still = lookup-append key_of heap buckets h (new ∷ []) in
      record {
        valid =
            prepend-IsTable key_of longer buckets wider key s live key_there (still key ∙ absent);
        found = lookup-prepend key_of longer buckets wider key s live key_there;
        others = λ k ne.
            lookup-prepend_other key_of longer buckets wider key s live key_there k ne ∙ still k;
        kept = λ s lt. symbol_at-append heap (new ∷ []) s lt;
        known = λ t e. absurd (found_none t (sym absent ∙ e));
        made = λ e. (refl, (refl, last_symbol heap new));
      }

  present :
      (s : ℕ)
      → lookup key_of key heap buckets ≡ ok (some s)
      → Interns key_of key new heap buckets (record { heap = heap; buckets = buckets; symbol = s })
  present s e = record {
    valid = h;
    found = e;
    others = λ k ne. refl;
    kept = λ s lt. refl;
    known = λ t e₂. (same_symbol s t (sym e ∙ e₂), (refl, refl));
    made = λ none_there. absurd (found_none s (sym none_there ∙ e));
  }
    where
      same_symbol : (s t : ℕ) → ok (some s) ≡ ok (some t) → s ≡ t
      same_symbol s t e = cc

  pub intern_found-Interns :
      (r : Interned) × ((intern_found key new heap buckets (lookup key_of key heap buckets) ≡ ok r)
        × Interns key_of key new heap buckets r)
  unfolding intern_found
  intern_found-Interns = elim (lookup-Finds key_of heap buckets h key) [
    | inl nothing ↦ (_, (ap (intern_found key new heap buckets) nothing.0, added nothing.0))
    | inr found ↦ (_, (ap (intern_found key new heap buckets) found.1.0, present found.0 found.1.0))
  ]

pub intern_string-Interns :
    (key : List ℕ) (heap : List Symbol) (buckets : List (List ℕ))
    → IsTable (λ s. s.pretty) heap buckets
    → (r : Interned) × ((intern_string key heap buckets ≡ ok r)
        × Interns (λ s. s.pretty) key (make_symbol (text key) false_object) heap buckets r)
unfolding intern_string
intern_string-Interns key heap buckets h =
    intern_found-Interns (λ s. s.pretty) key (make_symbol (text key) false_object) heap buckets h
      refl

pub intern_unique_string-Interns :
    (pretty_string : Field) (key : List ℕ) (heap : List Symbol) (buckets : List (List ℕ))
    → IsTable (λ s. s.unique) heap buckets
    → (r : Interned) × ((intern_unique_string pretty_string key heap buckets ≡ ok r)
        × Interns (λ s. s.unique) key (make_symbol pretty_string (text key)) heap buckets r)
unfolding intern_unique_string
intern_unique_string-Interns pretty_string key heap buckets h =
    intern_found-Interns (λ s. s.unique) key (make_symbol pretty_string (text key)) heap buckets h
      refl

ok-injective : (r₁ r₂ : Interned) → ok r₁ ≡ ok r₂ → r₁ ≡ r₂
ok-injective r₁ r₂ e = cc

-- What a run of `intern_string` did.
pub intern_string_run :
    (key : List ℕ) (heap : List Symbol) (buckets : List (List ℕ))
    → IsTable (λ s. s.pretty) heap buckets
    → (r : Interned) → intern_string key heap buckets ≡ ok r
    → Interns (λ s. s.pretty) key (make_symbol (text key) false_object) heap buckets r
intern_string_run key heap buckets h r run =
    let made = intern_string-Interns key heap buckets h in
    rw (ok-injective made.0 r (sym made.1.0 ∙ run)) at (made.1.1)

-- Where a string is interned in a well-formed table of symbols and then another in the table that
-- results, the two symbols are equal exactly if the strings are.
pub intern_string_twice :
    (k₁ k₂ : List ℕ) (heap : List Symbol) (buckets : List (List ℕ))
    → IsTable (λ s. s.pretty) heap buckets
    → (r₁ r₂ : Interned) → intern_string k₁ heap buckets ≡ ok r₁
    → intern_string k₂ r₁.heap r₁.buckets ≡ ok r₂
    → (r₁.symbol ≡ r₂.symbol) ↔ (k₁ ≡ k₂)
intern_string_twice k₁ k₂ heap buckets h r₁ r₂ run₁ run₂ =
    let first = intern_string_run k₁ heap buckets h r₁ run₁ in
    let second = intern_string_run k₂ r₁.heap r₁.buckets first.valid r₂ run₂ in
    let key₁ = lookup-key (λ s. s.pretty) r₁.heap r₁.buckets first.valid k₁ r₁.symbol first.found in
    let key₂ =
      lookup-key (λ s. s.pretty) r₂.heap r₂.buckets second.valid k₂ r₂.symbol second.found in
    let still = second.kept r₁.symbol key₁.1 in
    (
      λ same. text-injective k₁ k₂ (
          sym key₁.0
          ∙ ap (λ s. s.pretty) (sym still)
          ∙ ap (λ s. (symbol_at r₂.heap s).pretty) same
          ∙ key₂.0),
      λ same. sym (second.known r₁.symbol (rw same at first.found)).0,
    )
