-- ===== src/Symbols/Tables.antt =====
-- The operations of src/ikarus-symbol-table.c on the tables of a process. The marks of dirty pages for
-- the collector are left out.
pub mod Interning
pub mod Process
pub mod Gensyms
pub mod Buckets
pub mod Removal
pub mod Uninterning
use vicare_scheme.Base.{
  ℕ, ◌+◌, ◌≡◌, Bool, true, false, Option, none, some, List, [], ◌∷◌, ◌++◌, ◌==◌, if◌then◌else◌,
  length, get_or, set,
}
use vicare_scheme.Symbols.Hash.{bucket_index}
use vicare_scheme.Symbols.Objects.{
  Field, text, object, Symbol, make_symbol, false_object, symbol_at, forget_unique,
}
use vicare_scheme.Symbols.Search.{
  Run, ok, aborted, wild, search, lookup, prepend, make_symbol_table,
}

-- `pcb->symbol_table`: 0, the false object once Scheme code has taken the table, or a table.
pub data Slot : Type 0 where
  absent : Slot
  dead : Slot
  table : List (List ℕ) → Slot

pub record Pcb : Type 0 where
  pub heap : List Symbol
  pub symbol_table : Slot
  pub gensym_table : Option (List (List ℕ))

-- What interning in a table gives: the heap, the table and the symbol.
pub record Interned : Type 0 where
  pub heap : List Symbol
  pub buckets : List (List ℕ)
  pub symbol : ℕ

-- The end of `intern_string` and `intern_unique_string`, by what the search has found.
unfoldable pub intern_found :
    List ℕ → Symbol → List Symbol → List (List ℕ) → Run (Option ℕ) → Run Interned
intern_found key new heap buckets (ok (some s)) =
    ok (record { heap = heap; buckets = buckets; symbol = s })
intern_found key new heap buckets (ok none) =
    let s = length heap in
    ok (record { heap = heap ++ new ∷ []; buckets = prepend key s buckets; symbol = s })
intern_found key new heap buckets aborted = aborted
intern_found key new heap buckets wild = wild

unfoldable pub intern_string : List ℕ → List Symbol → List (List ℕ) → Run Interned
intern_string key heap buckets =
    intern_found key (make_symbol (text key) false_object) heap buckets
      (lookup (λ s. s.pretty) key heap buckets)

unfoldable pub intern_unique_string : Field → List ℕ → List Symbol → List (List ℕ) → Run Interned
intern_unique_string pretty_string key heap buckets =
    intern_found key (make_symbol pretty_string (text key)) heap buckets
      (lookup (λ s. s.unique) key heap buckets)

-- The table of gensyms, made where there is none.
unfoldable pub gensyms : Pcb → List (List ℕ)
gensyms pcb = elim pcb.gensym_table [ none ↦ make_symbol_table | some buckets ↦ buckets ]

unfoldable pub keep_symbols : Pcb → Run Interned → Run (Pcb × ℕ)
keep_symbols pcb (ok r) = ok (
  record { heap = r.heap; symbol_table = table r.buckets; gensym_table = pcb.gensym_table },
  r.symbol,
)
keep_symbols pcb aborted = aborted
keep_symbols pcb wild = wild

unfoldable pub string_to_symbol : List ℕ → Pcb → Run (Pcb × ℕ)
string_to_symbol key pcb = elim pcb.symbol_table [
  | dead ↦ aborted
  | absent ↦ keep_symbols pcb (intern_string key pcb.heap make_symbol_table)
  | table buckets ↦ keep_symbols pcb (intern_string key pcb.heap buckets)
]

unfoldable pub keep_gensyms : Pcb → Run Interned → Run (Pcb × ℕ)
keep_gensyms pcb (ok r) = ok (
  record { heap = r.heap; symbol_table = pcb.symbol_table; gensym_table = some r.buckets },
  r.symbol,
)
keep_gensyms pcb aborted = aborted
keep_gensyms pcb wild = wild

unfoldable pub strings_to_gensym : Field → List ℕ → Pcb → Run (Pcb × ℕ)
strings_to_gensym pretty_string key pcb =
    keep_gensyms pcb (intern_unique_string pretty_string key pcb.heap (gensyms pcb))

-- `ikrt_get_symbol_table`, which hands the table over once.
unfoldable pub get_symbol_table : Pcb → Run (Pcb × Slot)
get_symbol_table pcb = elim pcb.symbol_table [
  | dead ↦ aborted
  | absent ↦
      ok (record { heap = pcb.heap; symbol_table = dead; gensym_table = pcb.gensym_table }, absent)
  | table buckets ↦ ok (
    record { heap = pcb.heap; symbol_table = dead; gensym_table = pcb.gensym_table },
    table buckets,
  )
]

unfoldable pub with_gensyms : Pcb → List Symbol → List (List ℕ) → Pcb
with_gensyms pcb heap buckets = record {
  heap = heap;
  symbol_table = pcb.symbol_table;
  gensym_table = some buckets;
}

-- The end of `ikrt_intern_gensym`, by what the search has found.
unfoldable pub enter_gensym : List ℕ → ℕ → Pcb → Run (Option ℕ) → Run (Pcb × Bool)
enter_gensym key s pcb (ok (some other)) = ok (with_gensyms pcb pcb.heap (gensyms pcb), false)
enter_gensym key s pcb (ok none) =
    ok (with_gensyms pcb pcb.heap (prepend key s (gensyms pcb)), true)
enter_gensym key s pcb aborted = aborted
enter_gensym key s pcb wild = wild

unfoldable pub intern_by_unique : ℕ → Pcb → Field → Run (Pcb × Bool)
intern_by_unique s pcb (object w) = wild
intern_by_unique s pcb (text key) =
    enter_gensym key s pcb (lookup (λ s. s.unique) key pcb.heap (gensyms pcb))

unfoldable pub intern_gensym : ℕ → Pcb → Run (Pcb × Bool)
intern_gensym s pcb = intern_by_unique s pcb ((symbol_at pcb.heap s).unique)

-- The loop of `ikrt_unintern_gensym`: whether the symbol is in the bucket, and the bucket without the
-- first pair that holds it.
unfoldable pub contains : ℕ → List ℕ → Bool
contains s [] = false
contains s (t ∷ rest) = if t == s then true else contains s rest

unfoldable pub remove : ℕ → List ℕ → List ℕ
remove s [] = []
remove s (t ∷ rest) = if t == s then rest else t ∷ remove s rest

unfoldable pub remove_from : List ℕ → ℕ → Pcb → List (List ℕ) → Run (Pcb × Bool)
remove_from key s pcb buckets =
    let i = bucket_index key (length buckets) in
    let bucket = get_or buckets i [] in
    if contains s bucket
    then ok (with_gensyms pcb (forget_unique pcb.heap s) (set buckets i (remove s bucket)), true)
    else ok (pcb, false)

unfoldable pub unintern_by_unique : ℕ → Pcb → List (List ℕ) → Field → Run (Pcb × Bool)
unintern_by_unique s pcb buckets (object w) = ok (pcb, false)
unintern_by_unique s pcb buckets (text key) = remove_from key s pcb buckets

unfoldable pub unintern_gensym : ℕ → Pcb → Run (Pcb × Bool)
unintern_gensym s pcb = elim pcb.gensym_table [
  | none ↦ ok (pcb, false)
  | some buckets ↦ unintern_by_unique s pcb buckets ((symbol_at pcb.heap s).unique)
]
