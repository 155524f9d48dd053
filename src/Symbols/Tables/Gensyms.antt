-- ===== src/Symbols/Tables/Gensyms.antt =====
-- Interning an existing gensym.
use vicare_scheme.Base.{
  ℕ, ◌<◌, ◌≡◌, refl, sym, ◌∙◌, ap, inl, inr, Bool, true, false, none, some, List, length,
}
use vicare_scheme.Symbols.Objects.{Field, text, Symbol, symbol_at}
use vicare_scheme.Symbols.Search.{ok, prepend}
use vicare_scheme.Symbols.Search.Writes.{
  lookup-Finds, lookup-prepend, lookup-prepend_other, prepend-IsTable, found_none,
}
use vicare_scheme.Symbols.Tables.{
  Pcb, gensyms, with_gensyms, enter_gensym, intern_by_unique, intern_gensym,
}
use vicare_scheme.Symbols.Tables.Process.{IsPcb, find_symbol, find_gensym}

-- A symbol is entered in the table of gensyms, where its string is new there.
pub record EntersGensym (key : List ℕ) (s : ℕ) (pcb after : Pcb) (entered : Bool) : Type 0 where
  pub valid : IsPcb after
  pub new : find_gensym key pcb ≡ ok none → (entered ≡ true) × (find_gensym key after ≡ ok (some s))
  pub taken :
      (t : ℕ)
      → find_gensym key pcb ≡ ok (some t)
      → (entered ≡ false) × (find_gensym key after ≡ ok (some t))
  pub others : (k : List ℕ) → ¬ (key ≡ k) → find_gensym k after ≡ find_gensym k pcb
  pub symbols_kept : (k : List ℕ) → find_symbol k after ≡ find_symbol k pcb

intern_gensym-unique :
    (key : List ℕ) (s : ℕ) (pcb : Pcb)
    → (symbol_at pcb.heap s).unique ≡ text key
    → intern_gensym s pcb ≡ enter_gensym key s pcb (find_gensym key pcb)
unfolding intern_gensym intern_by_unique find_gensym
intern_gensym-unique key s pcb e = rw e refl

module _ (key : List ℕ) (s : ℕ) (pcb : Pcb) (h : IsPcb pcb) (live : s < length pcb.heap)
    (has_key : (symbol_at pcb.heap s).unique ≡ text key) where
  entered-EntersGensym :
      find_gensym key pcb ≡ ok none
      → EntersGensym key s pcb (with_gensyms pcb pcb.heap (prepend key s (gensyms pcb))) true
  unfolding find_gensym find_symbol gensyms with_gensyms
  entered-EntersGensym absent =
      let unique : Symbol → Field = λ s. s.unique in
      let g = h.gensyms_valid in
      record {
        valid = record {
          symbols = h.symbols;
          gensyms_valid = prepend-IsTable unique pcb.heap (gensyms pcb) g key s live has_key absent;
        };
        new = λ e. (refl, lookup-prepend unique pcb.heap (gensyms pcb) g key s live has_key);
        taken = λ t e. absurd (found_none t (sym absent ∙ e));
        others = lookup-prepend_other unique pcb.heap (gensyms pcb) g key s live has_key;
        symbols_kept = λ k. refl;
      }

  refused-EntersGensym :
      (t : ℕ)
      → find_gensym key pcb ≡ ok (some t)
      → EntersGensym key s pcb (with_gensyms pcb pcb.heap (gensyms pcb)) false
  unfolding find_gensym find_symbol gensyms with_gensyms
  refused-EntersGensym t found = record {
    valid = record { symbols = h.symbols; gensyms_valid = h.gensyms_valid };
    new = λ e. absurd (found_none t (sym e ∙ found));
    taken = λ u e. (refl, e);
    others = λ k ne. refl;
    symbols_kept = λ k. refl;
  }

  -- In a process whose two tables are well formed, `intern_gensym` of a symbol of the heap whose
  -- unique field is a string returns; if the string is found among no gensyms, it returns true and
  -- the string is found as that symbol; if it is found as a symbol, it returns false and the string
  -- is found as the same symbol; both tables are well formed after it, and every other gensym and
  -- every symbol is found as before.
  pub intern_gensym-EntersGensym :
      (after : Pcb) × (entered : Bool) × ((intern_gensym s pcb ≡ ok (after, entered))
        × EntersGensym key s pcb after entered)
  unfolding enter_gensym find_gensym
  intern_gensym-EntersGensym =
      let run = intern_gensym-unique key s pcb has_key in
      elim (lookup-Finds (λ s. s.unique) pcb.heap (gensyms pcb) h.gensyms_valid key) [
        | inl nothing ↦
            (_, _, (run ∙ ap (enter_gensym key s pcb) nothing.0, entered-EntersGensym nothing.0))
        | inr found ↦ (
          _,
          _,
          (run ∙ ap (enter_gensym key s pcb) found.1.0, refused-EntersGensym found.0 found.1.0),
        )
      ]
