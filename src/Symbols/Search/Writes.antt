-- ===== src/Symbols/Search/Writes.antt =====
-- A table after a symbol has been put into it.
use vicare_scheme.Base.{
  ℕ, ◌≤◌, length-append, ◌<◌, ◌≡◌, refl, sym, ◌∙◌, ap, inl, inr, ◌⊎◌, none, some, List, [], ◌∷◌,
  ◌++◌, arith, length, get_or, set, Bool-cases, ==_iff, ◌==◌, All, All-map, get_or-set,
  get_or-set_other, length-set,
}
use vicare_scheme.Symbols.Hash.{bucket_index, bucket_index-lt}
use vicare_scheme.Symbols.Objects.{Field, text, Symbol, symbol_at}
use vicare_scheme.Symbols.Search.{ok, search, lookup, prepend}
use vicare_scheme.Symbols.Search.Keys.{
  IsPlaced, IsTable, Finds, search-Finds, compare_key_same, compare_key_other, search-Agree,
  IsPlaced-Agree, NoTwins-Agree, append-Agree, Agree,
}

abbrev pub bucket_of : List ℕ → List (List ℕ) → List ℕ
bucket_of key buckets = get_or buckets (bucket_index key 4096) []

pub index_lt : (key : List ℕ) → bucket_index key 4096 < 4096
index_lt key = bucket_index-lt key 4096 (omega arith)

pub lookup-bucket :
    (key_of : Symbol → Field) (key : List ℕ) (heap : List Symbol) (buckets : List (List ℕ))
    → length buckets ≡ 4096
    → lookup key_of key heap buckets ≡ search key_of key heap (bucket_of key buckets)
unfolding lookup
lookup-bucket key_of key heap buckets e = rw e refl

prepend-set :
    (key : List ℕ) (s : ℕ) (buckets : List (List ℕ))
    → length buckets ≡ 4096
    → prepend key s buckets ≡ set buckets (bucket_index key 4096) (s ∷ bucket_of key buckets)
unfolding prepend
prepend-set key s buckets e = rw e refl

pub same_or_not : (i j : ℕ) → (i ≡ j) ⊎ ¬ (i ≡ j)
same_or_not i j = elim (Bool-cases (i == j)) [
  | inl e ↦ inl ((==_iff i j).0 e)
  | inr n ↦ inr (λ e. ground arith)
]

pub found_none : (t : ℕ) → ok none ≡ ok (some t) → ⊥
found_none t e = cc

module _ (key_of : Symbol → Field) (heap : List Symbol) (buckets : List (List ℕ))
    (h : IsTable key_of heap buckets) where
  -- What a lookup in a well-formed table finds; it never reads a string where there is none.
  pub lookup-Finds :
      (key : List ℕ)
      → Finds key_of key heap (bucket_of key buckets) (lookup key_of key heap buckets)
  lookup-Finds key = rw (lookup-bucket key_of key heap buckets h.size) (
      search-Finds key_of heap (bucket_index key 4096) key (bucket_of key buckets)
        (h.placed (bucket_index key 4096) (index_lt key)))

  -- A table is the same in two heaps where its symbols have the same keys.
  pub lookup-Agree :
      (other : List Symbol) (key : List ℕ)
      → Agree key_of heap other (bucket_of key buckets)
      → lookup key_of key other buckets ≡ lookup key_of key heap buckets
  lookup-Agree other key same =
      lookup-bucket key_of key other buckets h.size
      ∙ search-Agree key_of heap other key (bucket_of key buckets) same
      ∙ sym (lookup-bucket key_of key heap buckets h.size)

  pub IsTable-Agree :
      (other : List Symbol)
      → length heap ≤ length other
      → ((i : ℕ) → i < 4096 → Agree key_of heap other (get_or buckets i []))
      → IsTable key_of other buckets
  IsTable-Agree other longer same = record {
    size = h.size;
    placed = λ i lt.
        IsPlaced-Agree key_of heap other i longer (get_or buckets i []) (same i lt) (h.placed i lt);
    apart =
        λ i lt. NoTwins-Agree key_of heap other (get_or buckets i []) (same i lt) (h.apart i lt);
  }

  appended :
      (extra : List Symbol) (i : ℕ)
      → i < 4096
      → Agree key_of heap (heap ++ extra) (get_or buckets i [])
  appended extra i lt = append-Agree key_of heap extra i (get_or buckets i []) (h.placed i lt)

  pub lookup-append :
      (extra : List Symbol) (key : List ℕ)
      → lookup key_of key (heap ++ extra) buckets ≡ lookup key_of key heap buckets
  lookup-append extra key =
      lookup-Agree (heap ++ extra) key (appended extra (bucket_index key 4096) (index_lt key))

  pub IsTable-append : (extra : List Symbol) → IsTable key_of (heap ++ extra) buckets
  IsTable-append extra =
      IsTable-Agree (heap ++ extra) (let e = length-append heap extra in omega arith)
        (appended extra)

  module _ (key : List ℕ) (s : ℕ) (live : s < length heap)
      (has_key : key_of (symbol_at heap s) ≡ text key) where
    after : prepend key s buckets ≡ set buckets (bucket_index key 4096) (s ∷ bucket_of key buckets)
    after = prepend-set key s buckets h.size

    size_after : length (prepend key s buckets) ≡ 4096
    size_after = rw after (length-set buckets _ _ ∙ h.size)

    inside : bucket_index key 4096 < length buckets
    inside = let e = h.size in let lt = index_lt key in omega arith

    changed : bucket_of key (prepend key s buckets) ≡ s ∷ bucket_of key buckets
    changed = rw after (get_or-set buckets (bucket_index key 4096) _ [] inside)

    unchanged :
        (i : ℕ)
        → ¬ (bucket_index key 4096 ≡ i)
        → get_or (prepend key s buckets) i [] ≡ get_or buckets i []
    unchanged i ne = rw after (get_or-set_other buckets (bucket_index key 4096) i _ [] ne)

    pub lookup-prepend : lookup key_of key heap (prepend key s buckets) ≡ ok (some s)
    unfolding search
    lookup-prepend =
        lookup-bucket key_of key heap (prepend key s buckets) size_after
        ∙ rw (changed, has_key)
            (compare_key_same key s (search key_of key heap (bucket_of key buckets)))

    other_bucket :
        (k : List ℕ)
        → ¬ (key ≡ k)
        → search key_of k heap (bucket_of k (prepend key s buckets))
          ≡ search key_of k heap (bucket_of k buckets)
    unfolding search
    other_bucket k ne = elim (same_or_not (bucket_index key 4096) (bucket_index k 4096)) [
      | inr other ↦ ap (search key_of k heap) (unchanged (bucket_index k 4096) other)
      | inl same ↦
          rw (← same, changed, has_key)
            (compare_key_other k key s (search key_of k heap (bucket_of key buckets)) ne)
    ]

    pub lookup-prepend_other :
        (k : List ℕ)
        → ¬ (key ≡ k)
        → lookup key_of k heap (prepend key s buckets) ≡ lookup key_of k heap buckets
    lookup-prepend_other k ne =
        lookup-bucket key_of k heap (prepend key s buckets) size_after
        ∙ other_bucket k ne
        ∙ sym (lookup-bucket key_of k heap buckets h.size)

    pub prepend-IsTable :
        lookup key_of key heap buckets ≡ ok none → IsTable key_of heap (prepend key s buckets)
    prepend-IsTable absent = record {
      size = size_after;
      placed = λ i lt. elim (same_or_not (bucket_index key 4096) i) [
        | inr other ↦ rw (unchanged i other) (h.placed i lt)
        | inl same ↦
            rw (← same, changed) (placed_here, h.placed (bucket_index key 4096) (index_lt key))
      ];
      apart = λ i lt. elim (same_or_not (bucket_index key 4096) i) [
        | inr other ↦ rw (unchanged i other) (h.apart i lt)
        | inl same ↦
            rw (← same, changed)
              (alone (lookup-Finds key), h.apart (bucket_index key 4096) (index_lt key))
      ];
    }
      where
        placed_here : IsPlaced key_of heap (bucket_index key 4096) s
        placed_here = record { key = key; has_key = has_key; here = refl; live = live }

        alone :
            Finds key_of key heap (bucket_of key buckets) (lookup key_of key heap buckets)
            → All
                (λ r. ¬ (key_of (symbol_at heap r) ≡ key_of (symbol_at heap s)))
                (bucket_of key buckets)
        alone (inl nothing) = All-map (λ r ne e. ne (e ∙ has_key)) (bucket_of key buckets) nothing.1
        alone (inr found) = absurd (found_none found.0 (sym absent ∙ found.1.0))
