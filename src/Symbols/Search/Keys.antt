-- ===== src/Symbols/Search/Keys.antt =====
-- Tables as maps from strings to symbols: the invariant of the buckets, and what it says of a search.
use vicare_scheme.Base.{
  ℕ, ◌<◌, ◌≤◌, ◌≡◌, refl, sym, ◌∙◌, ap, inl, inr, ◌⊎◌, false, Option, none, some, List, [], ◌∷◌,
  ◌++◌, arith, length, get_or, Bool-cases, false-true, All, All-map, get_or-append,
}
use vicare_scheme.Symbols.Text.{strings_eqp, strings_eqp-eq, strings_eqp_refl}
use vicare_scheme.Symbols.Hash.{bucket_index}
use vicare_scheme.Symbols.Objects.{Field, text, Symbol, symbol_at}
use vicare_scheme.Symbols.Search.{Run, ok, compare_key, search}

-- A symbol in the right bucket.
pub record IsPlaced (key_of : Symbol → Field) (heap : List Symbol) (i s : ℕ) : Type 0 where
  pub key : List ℕ
  pub has_key : key_of (symbol_at heap s) ≡ text key
  pub here : bucket_index key 4096 ≡ i
  pub live : s < length heap

-- No two symbols of a bucket have one key.
abbrev pub NoTwins : (Symbol → Field) → List Symbol → List ℕ → Type 0
NoTwins key_of heap [] = Unit
NoTwins key_of heap (s ∷ rest) =
    All (λ r. ¬ (key_of (symbol_at heap r) ≡ key_of (symbol_at heap s))) rest
    × NoTwins key_of heap rest

pub record IsTable (key_of : Symbol → Field) (heap : List Symbol) (buckets : List (List ℕ))
    : Type 0 where
  pub size : length buckets ≡ 4096
  pub placed : (i : ℕ) → i < 4096 → All (IsPlaced key_of heap i) (get_or buckets i [])
  pub apart : (i : ℕ) → i < 4096 → NoTwins key_of heap (get_or buckets i [])

pub text-injective : (s t : List ℕ) → text s ≡ text t → s ≡ t
text-injective s t e = cc

pub strings_eqp-ne : (s t : List ℕ) → ¬ (s ≡ t) → strings_eqp s t ≡ false
strings_eqp-ne s t ne = elim (Bool-cases (strings_eqp s t)) [
  | inl same ↦ absurd (ne (strings_eqp-eq s t same))
  | inr other ↦ other
]

pub strings_eqp-apart : (s t : List ℕ) → strings_eqp s t ≡ false → ¬ (s ≡ t)
strings_eqp-apart s t h e =
    false-true (sym h ∙ ap (λ u. strings_eqp s u) (sym e) ∙ strings_eqp_refl s)

pub compare_key_same :
    (key : List ℕ) (s : ℕ) (later : Run (Option ℕ))
    → compare_key key s (text key) later ≡ ok (some s)
unfolding compare_key
compare_key_same key s later = rw (strings_eqp_refl key) refl

pub compare_key_other :
    (key t : List ℕ) (s : ℕ) (later : Run (Option ℕ))
    → ¬ (t ≡ key)
    → compare_key key s (text t) later ≡ later
unfolding compare_key
compare_key_other key t s later ne = rw (strings_eqp-ne t key ne) refl

pub symbol_at-append :
    (heap extra : List Symbol) (s : ℕ)
    → s < length heap
    → symbol_at (heap ++ extra) s ≡ symbol_at heap s
unfolding symbol_at
symbol_at-append heap extra s h = get_or-append heap extra s _ h

-- What a search of a well-formed bucket finds.
abbrev pub Finds : (Symbol → Field) → List ℕ → List Symbol → List ℕ → Run (Option ℕ) → Type 0
Finds key_of key heap bucket found =
    ((found ≡ ok none) × All (λ s. ¬ (key_of (symbol_at heap s) ≡ text key)) bucket)
    ⊎ ((s : ℕ) × ((found ≡ ok (some s))
          × ((key_of (symbol_at heap s) ≡ text key) × (s < length heap))))

module _ (key_of : Symbol → Field) (heap : List Symbol) (i : ℕ) where
  pub search-Finds :
      (key : List ℕ) (bucket : List ℕ)
      → All (IsPlaced key_of heap i) bucket
      → Finds key_of key heap bucket (search key_of key heap bucket)
  unfolding search
  search-Finds key [] h = inl (refl, tt)
  search-Finds key (s ∷ rest) h =
      let p = h.0 in
      let later = search key_of key heap rest in
      rw p.has_key (elim (Bool-cases (strings_eqp p.key key)) [
        | inl same ↦
            let e = strings_eqp-eq p.key key same in
            inr (
              s,
              (
                ap (λ k. compare_key key s (text k) later) e ∙ compare_key_same key s later,
                (p.has_key ∙ ap text e, p.live),
              ),
            )
        | inr other ↦
            let ne = strings_eqp-apart p.key key other in
            let step = compare_key_other key p.key s later ne in
            elim (search-Finds key rest h.1) [
              | inl nothing ↦
                  inl (step ∙ nothing.0, (λ e. ne (text-injective p.key key e), nothing.1))
              | inr found ↦ inr (found.0, (step ∙ found.1.0, found.1.1))
            ]
      ])

-- The keys of the symbols of a bucket in two heaps.
abbrev pub Agree : (Symbol → Field) → List Symbol → List Symbol → List ℕ → Type 0
Agree key_of heap other bucket =
    All (λ s. key_of (symbol_at other s) ≡ key_of (symbol_at heap s)) bucket

-- A bucket is the same in two heaps where its symbols have the same keys.
module _ (key_of : Symbol → Field) (heap other : List Symbol) where
  pub search-Agree :
      (key : List ℕ) (bucket : List ℕ)
      → Agree key_of heap other bucket
      → search key_of key other bucket ≡ search key_of key heap bucket
  unfolding search
  search-Agree key [] h = refl
  search-Agree key (s ∷ rest) h = rw (h.0, search-Agree key rest h.1) refl

  pub IsPlaced-Agree :
      (i : ℕ)
      → length heap ≤ length other
      → (bucket : List ℕ) → Agree key_of heap other bucket
      → All (IsPlaced key_of heap i) bucket
      → All (IsPlaced key_of other i) bucket
  IsPlaced-Agree i longer [] h p = tt
  IsPlaced-Agree i longer (s ∷ rest) h p = (
    record {
      key = p.0.key;
      has_key = h.0 ∙ p.0.has_key;
      here = p.0.here;
      live = let live = p.0.live in omega arith;
    },
    IsPlaced-Agree i longer rest h.1 p.1,
  )

  apart_from :
      (s : ℕ) (rest : List ℕ)
      → key_of (symbol_at other s) ≡ key_of (symbol_at heap s)
      → Agree key_of heap other rest
      → All (λ r. ¬ (key_of (symbol_at heap r) ≡ key_of (symbol_at heap s))) rest
      → All (λ r. ¬ (key_of (symbol_at other r) ≡ key_of (symbol_at other s))) rest
  apart_from s [] e h a = tt
  apart_from s (r ∷ rest) e h a = (λ same. a.0 (sym h.0 ∙ same ∙ e), apart_from s rest e h.1 a.1)

  pub NoTwins-Agree :
      (bucket : List ℕ)
      → Agree key_of heap other bucket
      → NoTwins key_of heap bucket
      → NoTwins key_of other bucket
  NoTwins-Agree [] h apart = tt
  NoTwins-Agree (s ∷ rest) h apart =
      (apart_from s rest h.0 h.1 apart.0, NoTwins-Agree rest h.1 apart.1)

-- The allocation of symbols is not seen in a bucket.
pub append-Agree :
    (key_of : Symbol → Field) (heap extra : List Symbol) (i : ℕ) (bucket : List ℕ)
    → All (IsPlaced key_of heap i) bucket
    → Agree key_of heap (heap ++ extra) bucket
append-Agree key_of heap extra i bucket h =
    All-map (λ s p. ap key_of (symbol_at-append heap extra s p.live)) bucket h
