-- ===== src/Symbols/Tables/Uninterning.antt =====
-- `ikrt_unintern_gensym` on the tables of a process.
use vicare_scheme.Base.{
  ℕ, ◌<◌, ◌≡◌, refl, sym, ◌∙◌, ap, inl, inr, Bool, true, false, false-true, none, some, List, [],
  length, set, Bool-cases, Option-cases, arith,
}
use vicare_scheme.Symbols.Hash.{bucket_index}
use vicare_scheme.Symbols.Objects.{text, symbol_at, forget_unique, true_object}
use vicare_scheme.Symbols.Search.{ok, search}
use vicare_scheme.Symbols.Search.Writes.{
  bucket_of, index_lt, lookup-bucket, lookup-Agree, IsTable-Agree, found_none,
}
use vicare_scheme.Symbols.Tables.{
  Pcb, gensyms, with_gensyms, remove, contains, remove_from, unintern_by_unique, unintern_gensym,
}
use vicare_scheme.Symbols.Tables.Buckets.{contains-search, search-contains}
use vicare_scheme.Symbols.Tables.Removal.{
  unique_of, length-forget_unique, forget_unique_here, removed-IsTable, lookup-removed,
  lookup-removed_other, pretty_agrees,
}
use vicare_scheme.Symbols.Tables.Process.{
  IsPcb, find_symbol, find_gensym, symbols_of, make_symbol_table-empty,
}

-- A symbol is taken out of the table of gensyms, where it is in it.
pub record RemovesGensym (key : List ℕ) (s : ℕ) (pcb after : Pcb) (removed : Bool) : Type 0 where
  pub valid : IsPcb after
  pub present :
      find_gensym key pcb ≡ ok (some s)
      → (removed ≡ true)
        × ((find_gensym key after ≡ ok none) × ((symbol_at after.heap s).unique ≡ true_object))
  pub missing : ¬ (find_gensym key pcb ≡ ok (some s)) → (removed ≡ false) × (after ≡ pcb)
  pub others : (k : List ℕ) → ¬ (key ≡ k) → find_gensym k after ≡ find_gensym k pcb
  pub symbols_kept : (k : List ℕ) → find_symbol k after ≡ find_symbol k pcb

remove_from-set :
    (key : List ℕ) (s : ℕ) (pcb : Pcb) (buckets : List (List ℕ))
    → length buckets ≡ 4096
    → contains s (bucket_of key buckets) ≡ true
    → remove_from key s pcb buckets
      ≡ ok (
        with_gensyms pcb
            (forget_unique pcb.heap s)
            (set buckets (bucket_index key 4096) (remove s (bucket_of key buckets))),
        true,
      )
unfolding remove_from
remove_from-set key s pcb buckets e there = rw (e, there) refl

remove_from-none :
    (key : List ℕ) (s : ℕ) (pcb : Pcb) (buckets : List (List ℕ))
    → length buckets ≡ 4096
    → contains s (bucket_of key buckets) ≡ false
    → remove_from key s pcb buckets ≡ ok (pcb, false)
unfolding remove_from
remove_from-none key s pcb buckets e absent = rw (e, absent) refl

module _ (key : List ℕ) (s : ℕ) (pcb : Pcb) (h : IsPcb pcb) (live : s < length pcb.heap)
    (has_key : (symbol_at pcb.heap s).unique ≡ text key) where
  -- Nothing is done where the symbol is not found.
  refused : ¬ (find_gensym key pcb ≡ ok (some s)) → RemovesGensym key s pcb pcb false
  refused ne = record {
    valid = h;
    present = λ e. absurd (ne e);
    missing = λ e. (refl, refl);
    others = λ k other. refl;
    symbols_kept = λ k. refl;
  }

  removed :
      contains s (bucket_of key (gensyms pcb)) ≡ true
      → RemovesGensym key s pcb
          (with_gensyms pcb
            (forget_unique pcb.heap s)
            (set (gensyms pcb) (bucket_index key 4096) (remove s (bucket_of key (gensyms pcb)))))
          true
  unfolding find_gensym find_symbol with_gensyms gensyms
  removed there =
      let g = h.gensyms_valid in
      let e = length-forget_unique pcb.heap s in
      let bucket = bucket_of key (gensyms pcb) in
      let found =
        lookup-bucket unique_of key pcb.heap (gensyms pcb) g.size
        ∙ contains-search unique_of pcb.heap (bucket_index key 4096) s key has_key bucket
            (g.placed (bucket_index key 4096) (index_lt key))
            (g.apart (bucket_index key 4096) (index_lt key)) there in
      record {
        valid = record {
          symbols =
              IsTable-Agree (λ t. t.pretty) pcb.heap (symbols_of pcb.symbol_table) h.symbols
                (forget_unique pcb.heap s) (omega arith) (λ i lt. pretty_agrees pcb.heap s live _);
          gensyms_valid = removed-IsTable key s pcb.heap (gensyms pcb) g live has_key there;
        };
        present = λ f. (
          refl,
          (
            lookup-removed key s pcb.heap (gensyms pcb) g live has_key there,
            forget_unique_here pcb.heap s live,
          ),
        );
        missing = λ ne. absurd (ne found);
        others = lookup-removed_other key s pcb.heap (gensyms pcb) g live has_key there;
        symbols_kept = λ k.
            lookup-Agree (λ t. t.pretty) pcb.heap (symbols_of pcb.symbol_table) h.symbols
              (forget_unique pcb.heap s) k (pretty_agrees pcb.heap s live _);
      }

  unintern_gensym_unique :
      (buckets : List (List ℕ))
      → pcb.gensym_table ≡ some buckets
      → unintern_gensym s pcb ≡ remove_from key s pcb (gensyms pcb)
  unfolding unintern_gensym unintern_by_unique gensyms
  unintern_gensym_unique buckets e = rw (e, has_key) refl

  -- A process without the table has no gensym.
  none_found : pcb.gensym_table ≡ none → find_gensym key pcb ≡ ok none
  unfolding find_gensym gensyms search
  none_found e =
      lookup-bucket unique_of key pcb.heap (gensyms pcb) h.gensyms_valid.size
      ∙ ap (search unique_of key pcb.heap) (empty e)
    where
      empty : pcb.gensym_table ≡ none → bucket_of key (gensyms pcb) ≡ []
      empty e = rw e (make_symbol_table-empty key)

  no_table : pcb.gensym_table ≡ none → unintern_gensym s pcb ≡ ok (pcb, false)
  unfolding unintern_gensym
  no_table e = rw e refl

  in_table :
      (buckets : List (List ℕ))
      → pcb.gensym_table ≡ some buckets
      → (after : Pcb) × (b : Bool) × ((unintern_gensym s pcb ≡ ok (after, b))
          × RemovesGensym key s pcb after b)
  unfolding find_gensym
  in_table buckets e =
      let g = h.gensyms_valid in
      let run = unintern_gensym_unique buckets e in
      elim (Bool-cases (contains s (bucket_of key (gensyms pcb)))) [
        | inl there ↦
            (_, _, (run ∙ remove_from-set key s pcb (gensyms pcb) g.size there, removed there))
        | inr absent ↦
            let ne : ¬ (find_gensym key pcb ≡ ok (some s)) = λ found. false-true (
              sym absent
              ∙ search-contains unique_of pcb.heap (bucket_index key 4096) s key has_key
                  (bucket_of key (gensyms pcb)) (g.placed (bucket_index key 4096) (index_lt key))
                  (sym (lookup-bucket unique_of key pcb.heap (gensyms pcb) g.size) ∙ found)) in
            (_, _, (run ∙ remove_from-none key s pcb (gensyms pcb) g.size absent, refused ne))
      ]

  -- In a process whose two tables are well formed, `unintern_gensym` of a symbol of the heap whose
  -- unique field is a string returns; if that string is found among the gensyms as that symbol, it
  -- returns true, the string is found no more and the field is the true object; if not, it returns
  -- false and changes nothing; both tables are well formed after it, and every other gensym and
  -- every symbol is found as before.
  pub unintern_gensym-RemovesGensym :
      (after : Pcb) × (b : Bool) × ((unintern_gensym s pcb ≡ ok (after, b))
        × RemovesGensym key s pcb after b)
  unintern_gensym-RemovesGensym = elim (Option-cases pcb.gensym_table) [
    | inl none_there ↦ (
      _,
      _,
      (no_table none_there, refused (λ found. found_none s (sym (none_found none_there) ∙ found))),
    )
    | inr buckets ↦ in_table buckets.0 buckets.1
  ]
