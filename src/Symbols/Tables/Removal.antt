-- ===== src/Symbols/Tables/Removal.antt =====
-- Removing a gensym.
use vicare_scheme.Base.{
  ℕ, ◌<◌, ◌≡◌, sym, ◌∙◌, ap, inl, inr, true, none, List, [], ◌∷◌, length, get_or, set, All, All-map,
  get_or-set, get_or-set_other, length-set, arith,
}
use vicare_scheme.Symbols.Hash.{bucket_index}
use vicare_scheme.Symbols.Objects.{Field, text, Symbol, symbol_at, forget_unique, true_object}
use vicare_scheme.Symbols.Search.{ok, search, lookup}
use vicare_scheme.Symbols.Search.Keys.{IsPlaced, IsTable, Agree, text-injective}
use vicare_scheme.Symbols.Search.Writes.{
  bucket_of, index_lt, lookup-bucket, same_or_not, lookup-Agree, IsTable-Agree,
}
use vicare_scheme.Symbols.Tables.{remove, contains}
use vicare_scheme.Symbols.Tables.Buckets.{
  All-remove, remove-unkeyed, NoTwins-remove, search-remove, search-unkeyed,
}

abbrev pub unique_of : Symbol → Field
unique_of s = s.unique

module _ (heap : List Symbol) (s : ℕ) where
  pub length-forget_unique : length (forget_unique heap s) ≡ length heap
  unfolding forget_unique
  length-forget_unique = length-set heap s _

  forget_unique_other : (r : ℕ) → ¬ (r ≡ s) → symbol_at (forget_unique heap s) r ≡ symbol_at heap r
  unfolding forget_unique symbol_at
  forget_unique_other r ne = get_or-set_other heap s r _ _ (λ e. ne (sym e))

  pub forget_unique_here :
      s < length heap → (symbol_at (forget_unique heap s) s).unique ≡ true_object
  unfolding forget_unique symbol_at
  forget_unique_here h = ap unique_of (get_or-set heap s _ _ h)

  forget_unique_pretty :
      (r : ℕ)
      → s < length heap
      → (symbol_at (forget_unique heap s) r).pretty ≡ (symbol_at heap r).pretty
  unfolding forget_unique symbol_at
  forget_unique_pretty r h = elim (same_or_not r s) [
    | inr other ↦ ap (λ t. t.pretty) (get_or-set_other heap s r _ _ (λ e. other (sym e)))
    | inl same ↦ rw same (ap (λ t. t.pretty) (get_or-set heap s _ _ h))
  ]

  pub pretty_agrees :
      s < length heap → (bucket : List ℕ) → Agree (λ t. t.pretty) heap (forget_unique heap s) bucket
  pretty_agrees live [] = tt
  pretty_agrees live (r ∷ bucket) = (forget_unique_pretty r live, pretty_agrees live bucket)

module _ (key : List ℕ) (s : ℕ) (heap : List Symbol) (buckets : List (List ℕ))
    (h : IsTable unique_of heap buckets) (live : s < length heap)
    (has_key : (symbol_at heap s).unique ≡ text key)
    (there : contains s (bucket_of key buckets) ≡ true) where
  abbrev here : ℕ
  here = bucket_index key 4096

  abbrev rest : List ℕ
  rest = remove s (bucket_of key buckets)

  abbrev fewer : List (List ℕ)
  fewer = set buckets here rest

  changed : bucket_of key fewer ≡ rest
  changed = let e = h.size in let lt = index_lt key in get_or-set buckets here rest [] (omega arith)

  unchanged : (i : ℕ) → ¬ (here ≡ i) → get_or fewer i [] ≡ get_or buckets i []
  unchanged i ne = get_or-set_other buckets here i rest [] ne

  unkeyed : All (λ r. ¬ ((symbol_at heap r).unique ≡ text key)) rest
  unkeyed =
      remove-unkeyed unique_of heap s key has_key (bucket_of key buckets)
        (h.apart here (index_lt key)) there

  fewer-IsTable : IsTable unique_of heap fewer
  fewer-IsTable = record {
    size = length-set buckets here rest ∙ h.size;
    placed = λ i lt. elim (same_or_not here i) [
      | inr other ↦ rw (unchanged i other) (h.placed i lt)
      | inl same ↦
          rw (← same, changed)
            (All-remove _ s (bucket_of key buckets) (h.placed here (index_lt key)))
    ];
    apart = λ i lt. elim (same_or_not here i) [
      | inr other ↦ rw (unchanged i other) (h.apart i lt)
      | inl same ↦
          rw (← same, changed)
            (NoTwins-remove unique_of heap s key has_key (bucket_of key buckets)
              (h.apart here (index_lt key)))
    ];
  }

  agrees :
      (r : ℕ) → ¬ (r ≡ s) → (symbol_at (forget_unique heap s) r).unique ≡ (symbol_at heap r).unique
  agrees r ne = ap unique_of (forget_unique_other heap s r ne)

  -- The symbol is in no bucket that is left.
  all-Agree : (i : ℕ) → i < 4096 → Agree unique_of heap (forget_unique heap s) (get_or fewer i [])
  all-Agree i lt = elim (same_or_not here i) [
    | inl same ↦
        rw (← same, changed)
          (All-map (λ r ne. agrees r (λ e. ne (ap (λ u. (symbol_at heap u).unique) e ∙ has_key)))
            rest unkeyed)
    | inr other ↦ rw (unchanged i other) (
        All-map (λ r p. agrees r (λ e. other (elsewhere r p e))) (get_or buckets i [])
          (h.placed i lt))
  ]
    where
      elsewhere : (r : ℕ) → IsPlaced unique_of heap i r → r ≡ s → here ≡ i
      elsewhere r p e =
          let same =
            text-injective key p.key
              (sym has_key ∙ ap (λ u. (symbol_at heap u).unique) (sym e) ∙ p.has_key) in
          ap (λ k. bucket_index k 4096) same ∙ p.here

  pub removed-IsTable : IsTable unique_of (forget_unique heap s) fewer
  removed-IsTable =
      let e = length-forget_unique heap s in
      IsTable-Agree unique_of heap fewer fewer-IsTable (forget_unique heap s) (omega arith)
        all-Agree

  same_lookup :
      (k : List ℕ)
      → lookup unique_of k (forget_unique heap s) fewer
        ≡ search unique_of k heap (bucket_of k fewer)
  same_lookup k =
      lookup-Agree unique_of heap fewer fewer-IsTable (forget_unique heap s) k
        (all-Agree (bucket_index k 4096) (index_lt k))
      ∙ lookup-bucket unique_of k heap fewer fewer-IsTable.size

  pub lookup-removed : lookup unique_of key (forget_unique heap s) fewer ≡ ok none
  lookup-removed =
      same_lookup key
      ∙ ap (search unique_of key heap) changed
      ∙ search-unkeyed unique_of heap here key rest
          (All-remove _ s (bucket_of key buckets) (h.placed here (index_lt key))) unkeyed

  pub lookup-removed_other :
      (k : List ℕ)
      → ¬ (key ≡ k)
      → lookup unique_of k (forget_unique heap s) fewer ≡ lookup unique_of k heap buckets
  lookup-removed_other k ne =
      same_lookup k
      ∙ elim (same_or_not here (bucket_index k 4096)) [
        | inr other ↦ ap (search unique_of k heap) (unchanged (bucket_index k 4096) other)
        | inl same ↦
            rw (← same, changed)
              (search-remove unique_of heap s key has_key k (bucket_of key buckets) ne)
      ]
      ∙ sym (lookup-bucket unique_of k heap buckets h.size)
