-- ===== src/Symbols/Tables/Process.antt =====
-- The tables of a process, and the interning functions that work on them.
use vicare_scheme.Base.{
  ℕ, zero, suc, ◌≡◌, refl, sym, ◌∙◌, ap, inl, inr, Option, some, List, [], ◌∷◌, get_or,
  length-replicate, replicate,
}
use vicare_scheme.Symbols.Hash.{bucket_index}
use vicare_scheme.Symbols.Objects.{Field, Symbol}
use vicare_scheme.Symbols.Search.{Run, ok, aborted, lookup, make_symbol_table}
use vicare_scheme.Symbols.Search.Keys.{IsTable}
use vicare_scheme.Symbols.Search.Writes.{lookup-Finds, lookup-append, IsTable-append}
use vicare_scheme.Symbols.Tables.{
  get_symbol_table, Slot, absent, dead, table, Pcb, Interned, string_to_symbol, strings_to_gensym,
  gensyms, keep_symbols, keep_gensyms, intern_string,
}
use vicare_scheme.Symbols.Tables.Interning.{
  Interns, intern_string-Interns, intern_unique_string-Interns,
}

empty_bucket : (n i : ℕ) (e : List ℕ) → get_or (replicate n e) i e ≡ e
empty_bucket zero i e = refl
empty_bucket (suc n) zero e = refl
empty_bucket (suc n) (suc i) e = empty_bucket n i e

pub make_symbol_table-IsTable :
    (key_of : Symbol → Field) (heap : List Symbol) → IsTable key_of heap make_symbol_table
unfolding make_symbol_table
make_symbol_table-IsTable key_of heap = record {
  size = let nothing : List ℕ = [] in length-replicate 4096 nothing;
  placed = λ i lt. rw (empty_bucket 4096 i []) tt;
  apart = λ i lt. rw (empty_bucket 4096 i []) tt;
}

pub make_symbol_table-empty :
    (key : List ℕ) → get_or make_symbol_table (bucket_index key 4096) [] ≡ []
unfolding make_symbol_table
make_symbol_table-empty key = empty_bucket 4096 (bucket_index key 4096) []

-- The table of symbols, empty where there is none.
unfoldable pub symbols_of : Slot → List (List ℕ)
symbols_of absent = make_symbol_table
symbols_of dead = make_symbol_table
symbols_of (table buckets) = buckets

-- Both tables are well formed over the heap.
pub record IsPcb (pcb : Pcb) : Type 0 where
  pub symbols : IsTable (λ s. s.pretty) pcb.heap (symbols_of pcb.symbol_table)
  pub gensyms_valid : IsTable (λ s. s.unique) pcb.heap (gensyms pcb)

unfoldable pub find_symbol : List ℕ → Pcb → Run (Option ℕ)
find_symbol key pcb = lookup (λ s. s.pretty) key pcb.heap (symbols_of pcb.symbol_table)

unfoldable pub find_gensym : List ℕ → Pcb → Run (Option ℕ)
find_gensym key pcb = lookup (λ s. s.unique) key pcb.heap (gensyms pcb)

-- The other table does not see that a string is interned in one.
record IsApart (key_of : Symbol → Field) (heap wider : List Symbol) (buckets : List (List ℕ))
    : Type 0 where
  valid : IsTable key_of wider buckets
  same : (k : List ℕ) → lookup key_of k wider buckets ≡ lookup key_of k heap buckets

other_table :
    (key_of other : Symbol → Field) (key : List ℕ) (new : Symbol) (heap : List Symbol)
    (buckets beside : List (List ℕ)) (r : Interned)
    → IsTable key_of heap buckets
    → IsTable other heap beside
    → Interns key_of key new heap buckets r
    → IsApart other heap r.heap beside
other_table key_of other key new heap buckets beside r h k did =
    elim (lookup-Finds key_of heap buckets h key) [
      | inl nothing ↦ rw (did.made nothing.0).0 (record {
        valid = IsTable-append other heap beside k (new ∷ []);
        same = lookup-append other heap beside k (new ∷ []);
      })
      | inr found ↦ rw (did.known found.0 found.1.0).1.0 (record { valid = k; same = λ l. refl })
    ]

-- A string has been interned in the table of symbols; the gensyms are as before.
pub record SymbolFor (key : List ℕ) (pcb after : Pcb) (s : ℕ) : Type 0 where
  pub valid : IsPcb after
  pub found : find_symbol key after ≡ ok (some s)
  pub known : (t : ℕ) → find_symbol key pcb ≡ ok (some t) → s ≡ t
  pub others : (k : List ℕ) → ¬ (key ≡ k) → find_symbol k after ≡ find_symbol k pcb
  pub gensyms_kept : (k : List ℕ) → find_gensym k after ≡ find_gensym k pcb

-- A string has been interned in the table of gensyms; the symbols are as before.
pub record GensymFor (key : List ℕ) (pcb after : Pcb) (s : ℕ) : Type 0 where
  pub valid : IsPcb after
  pub found : find_gensym key after ≡ ok (some s)
  pub known : (t : ℕ) → find_gensym key pcb ≡ ok (some t) → s ≡ t
  pub others : (k : List ℕ) → ¬ (key ≡ k) → find_gensym k after ≡ find_gensym k pcb
  pub symbols_kept : (k : List ℕ) → find_symbol k after ≡ find_symbol k pcb

string_to_symbol-keep :
    (key : List ℕ) (pcb : Pcb)
    → ¬ (pcb.symbol_table ≡ dead)
    → string_to_symbol key pcb
      ≡ keep_symbols pcb (intern_string key pcb.heap (symbols_of pcb.symbol_table))
unfolding string_to_symbol symbols_of
string_to_symbol-keep key pcb alive = by_slot pcb.symbol_table refl
  where
    by_slot :
        (slot : Slot)
        → pcb.symbol_table ≡ slot
        → string_to_symbol key pcb
          ≡ keep_symbols pcb (intern_string key pcb.heap (symbols_of pcb.symbol_table))
    by_slot absent e = rw e refl
    by_slot dead e = absurd (alive e)
    by_slot (table buckets) e = rw e refl

-- In a process whose two tables are well formed and whose table of symbols Scheme code has not
-- taken, `string_to_symbol` returns a process and a symbol such that both tables are well formed,
-- the string is found as that symbol, which is the one found before if there was one, every other
-- string is found as before, and so is every gensym.
pub string_to_symbol-SymbolFor :
    (key : List ℕ) (pcb : Pcb)
    → IsPcb pcb
    → ¬ (pcb.symbol_table ≡ dead)
    → (after : Pcb) × (s : ℕ) × ((string_to_symbol key pcb ≡ ok (after, s))
        × SymbolFor key pcb after s)
unfolding keep_symbols find_symbol find_gensym gensyms symbols_of
string_to_symbol-SymbolFor key pcb h alive =
    let ran = intern_string-Interns key pcb.heap (symbols_of pcb.symbol_table) h.symbols in
    let did = ran.1.1 in
    let beside =
      other_table (λ s. s.pretty) (λ s. s.unique) key _ pcb.heap (symbols_of pcb.symbol_table)
        (gensyms pcb) ran.0 h.symbols h.gensyms_valid did in
    (
      _,
      ran.0.symbol,
      (
        string_to_symbol-keep key pcb alive ∙ ap (keep_symbols pcb) ran.1.0,
        record {
          valid = record { symbols = did.valid; gensyms_valid = beside.valid };
          found = did.found;
          known = λ t e. (did.known t e).0;
          others = did.others;
          gensyms_kept = beside.same;
        },
      ),
    )

-- In a process whose two tables are well formed, `strings_to_gensym` returns a process and a symbol
-- such that both tables are well formed, the unique string is found as that symbol, which is the
-- one found before if there was one, every other gensym is found as before, and so is every symbol.
pub strings_to_gensym-GensymFor :
    (pretty_string : Field) (key : List ℕ) (pcb : Pcb)
    → IsPcb pcb
    → (after : Pcb) × (s : ℕ) × ((strings_to_gensym pretty_string key pcb ≡ ok (after, s))
        × GensymFor key pcb after s)
unfolding strings_to_gensym keep_gensyms find_symbol find_gensym gensyms
strings_to_gensym-GensymFor pretty_string key pcb h =
    let ran =
      intern_unique_string-Interns pretty_string key pcb.heap (gensyms pcb) h.gensyms_valid in
    let did = ran.1.1 in
    let beside =
      other_table (λ s. s.unique) (λ s. s.pretty) key _ pcb.heap (gensyms pcb)
        (symbols_of pcb.symbol_table) ran.0 h.gensyms_valid h.symbols did in
    (
      _,
      ran.0.symbol,
      (
        ap (keep_gensyms pcb) ran.1.0,
        record {
          valid = record { symbols = beside.valid; gensyms_valid = did.valid };
          found = did.found;
          known = λ t e. (did.known t e).0;
          others = did.others;
          symbols_kept = beside.same;
        },
      ),
    )

-- Where `get_symbol_table` returns, it returns the slot that the process had, every gensym is found
-- as before, and in the process that results both `string_to_symbol` and `get_symbol_table` end the
-- process.
pub get_symbol_table_once :
    (key : List ℕ) (pcb after : Pcb) (slot : Slot)
    → get_symbol_table pcb ≡ ok (after, slot)
    → ((string_to_symbol key after ≡ aborted) × (get_symbol_table after ≡ aborted))
      × ((slot ≡ pcb.symbol_table) × ((k : List ℕ) → find_gensym k after ≡ find_gensym k pcb))
unfolding get_symbol_table string_to_symbol find_gensym gensyms
get_symbol_table_once key pcb after slot run = by_slot pcb.symbol_table refl
  where
    taken : Pcb
    taken = record { heap = pcb.heap; symbol_table = dead; gensym_table = pcb.gensym_table }

    result : Pcb → Slot → Run (Pcb × Slot)
    result p q = ok (p, q)

    after_is : (q : Slot) → result taken q ≡ result after slot → (taken ≡ after) × (q ≡ slot)
    after_is q e = (cc, cc)

    kept : (k : List ℕ) → find_gensym k taken ≡ find_gensym k pcb
    kept k = refl

    conclude :
        (q : Slot)
        → pcb.symbol_table ≡ q
        → result taken q ≡ result after slot
        → ((string_to_symbol key after ≡ aborted) × (get_symbol_table after ≡ aborted))
          × ((slot ≡ pcb.symbol_table) × ((k : List ℕ) → find_gensym k after ≡ find_gensym k pcb))
    conclude q e r =
        let both = after_is q r in
        let stopped : (string_to_symbol key after ≡ aborted) × (get_symbol_table after ≡ aborted) =
          rw (← both.0) (refl, refl) in
        let same : (k : List ℕ) → find_gensym k after ≡ find_gensym k pcb =
          λ k. rw (← both.0) (kept k) in
        (stopped, (sym both.1 ∙ sym e, same))

    not_ok : aborted ≡ result after slot → ⊥
    not_ok e = cc

    by_slot :
        (q : Slot)
        → pcb.symbol_table ≡ q
        → ((string_to_symbol key after ≡ aborted) × (get_symbol_table after ≡ aborted))
          × ((slot ≡ pcb.symbol_table) × ((k : List ℕ) → find_gensym k after ≡ find_gensym k pcb))
    by_slot absent e = conclude absent e (rw e at run)
    by_slot dead e = absurd (not_ok (rw e at run))
    by_slot (table buckets) e = conclude (table buckets) e (rw e at run)
