-- ===== src/Symbols/Tests.antt =====
-- The theorems on the tables of symbols at concrete strings.
use vicare_scheme.Base.{
  ℕ, ◌^◌, ◌<◌, ◌≡◌, refl, Bool, none, List, [], ◌∷◌, arith, length, ◌↔◌, ◌*◌, ◌+◌,
}
use vicare_scheme.Numerics.Words.{IsFixnum, unfix}
use vicare_scheme.Symbols.Hash.{default, string_hash, compute_string_hash, string_hash-IsFixnum}
use vicare_scheme.Symbols.Objects.{text, symbol_at, make_symbol}
use vicare_scheme.Symbols.Search.{ok, aborted, make_symbol_table}
use vicare_scheme.Symbols.Search.Keys.{IsTable}
use vicare_scheme.Symbols.Tables.{
  Slot, absent, dead, table, Pcb, Interned, string_to_symbol, strings_to_gensym, intern_gensym,
  unintern_gensym, get_symbol_table, intern_string,
}
use vicare_scheme.Symbols.Tables.Interning.{intern_string_twice, intern_string-Interns}
use vicare_scheme.Symbols.Tables.Process.{
  IsPcb, SymbolFor, GensymFor, find_gensym, make_symbol_table-IsTable, string_to_symbol-SymbolFor,
  strings_to_gensym-GensymFor, get_symbol_table_once,
}
use vicare_scheme.Symbols.Tables.Gensyms.{EntersGensym, intern_gensym-EntersGensym}
use vicare_scheme.Symbols.Tables.Uninterning.{RemovesGensym, unintern_gensym-RemovesGensym}

-- The strings "a" and "b" as tagged characters, and a process with one uninterned gensym.
abbrev a : List ℕ
a = (97 * 256 + 15) ∷ []

abbrev b : List ℕ
b = (98 * 256 + 15) ∷ []

abbrev start : Pcb
start = record {
  heap = make_symbol (text a) (text b) ∷ [];
  symbol_table = absent;
  gensym_table = none;
}

start-IsPcb : IsPcb start
unfolding vicare_scheme.Symbols.Tables.gensyms vicare_scheme.Symbols.Tables.Process.symbols_of
start-IsPcb = record {
  symbols = make_symbol_table-IsTable (λ s. s.pretty) start.heap;
  gensyms_valid = make_symbol_table-IsTable (λ s. s.unique) start.heap;
}

start_alive : ¬ (start.symbol_table ≡ dead)
start_alive e = cc

string_to_symbol-SymbolFor_example :
    (after : Pcb) × (s : ℕ) × ((string_to_symbol a start ≡ ok (after, s))
      × SymbolFor a start after s)
string_to_symbol-SymbolFor_example = string_to_symbol-SymbolFor a start start-IsPcb start_alive

strings_to_gensym-GensymFor_example :
    (after : Pcb) × (s : ℕ) × ((strings_to_gensym (text a) b start ≡ ok (after, s))
      × GensymFor b start after s)
strings_to_gensym-GensymFor_example = strings_to_gensym-GensymFor (text a) b start start-IsPcb

start_live : 0 < length start.heap
start_live = omega arith

start_key : (symbol_at start.heap 0).unique ≡ text b
unfolding symbol_at
start_key = refl

intern_gensym-EntersGensym_example :
    (after : Pcb) × (entered : Bool) × ((intern_gensym 0 start ≡ ok (after, entered))
      × EntersGensym b 0 start after entered)
intern_gensym-EntersGensym_example =
    intern_gensym-EntersGensym b 0 start start-IsPcb start_live start_key

unintern_gensym-RemovesGensym_example :
    (after : Pcb) × (removed : Bool) × ((unintern_gensym 0 start ≡ ok (after, removed))
      × RemovesGensym b 0 start after removed)
unintern_gensym-RemovesGensym_example =
    unintern_gensym-RemovesGensym b 0 start start-IsPcb start_live start_key

abbrev taken : Pcb
taken = record { heap = start.heap; symbol_table = dead; gensym_table = none }

start_taken : get_symbol_table start ≡ ok (taken, absent)
unfolding get_symbol_table
start_taken = refl

get_symbol_table_once_example :
    ((string_to_symbol a taken ≡ aborted) × (get_symbol_table taken ≡ aborted))
    × ((absent ≡ start.symbol_table) × ((k : List ℕ) → find_gensym k taken ≡ find_gensym k start))
get_symbol_table_once_example = get_symbol_table_once a start taken absent start_taken

empty-IsTable : IsTable (λ s. s.pretty) [] make_symbol_table
empty-IsTable = make_symbol_table-IsTable (λ s. s.pretty) []

abbrev first : Interned
first = (intern_string-Interns a [] make_symbol_table empty-IsTable).0

first_run : intern_string a [] make_symbol_table ≡ ok first
first_run = (intern_string-Interns a [] make_symbol_table empty-IsTable).1.0

first-IsTable : IsTable (λ s. s.pretty) first.heap first.buckets
first-IsTable = (intern_string-Interns a [] make_symbol_table empty-IsTable).1.1.valid

abbrev second : Interned
second = (intern_string-Interns b first.heap first.buckets first-IsTable).0

second_run : intern_string b first.heap first.buckets ≡ ok second
second_run = (intern_string-Interns b first.heap first.buckets first-IsTable).1.0

intern_string_twice_example : (first.symbol ≡ second.symbol) ↔ (a ≡ b)
intern_string_twice_example =
    intern_string_twice a b [] make_symbol_table empty-IsTable first second first_run second_run

string_hash-IsFixnum_example :
    (IsFixnum (string_hash a default)
      × (unfix (string_hash a default) ≡ compute_string_hash a default))
    × (compute_string_hash a default < 2 ^ 60)
string_hash-IsFixnum_example = string_hash-IsFixnum a default
