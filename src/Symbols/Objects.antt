-- ===== src/Symbols/Objects.antt =====
-- Symbol objects (`iku_make_symbol` of src/ikarus-symbol-table.c). The heap is the list of the symbols
-- made so far; a reference to a symbol is its index, which an allocation does not change.
use vicare_scheme.Base.{ℕ, List, get_or, set}

-- A word of a symbol: a reference to a string, with its characters, or another object.
pub data Field : Type 0 where
  text : List ℕ → Field
  object : ℕ → Field

pub record Symbol : Type 0 where
  pub pretty : Field
  pub unique : Field
  pub value : ℕ
  pub proc : ℕ
  pub plist : ℕ

abbrev pub false_object : Field
false_object = object 0x2f

abbrev pub true_object : Field
true_object = object 0x3f

abbrev pub unbound_object : ℕ
unbound_object = 0x6f

abbrev pub null_object : ℕ
null_object = 0x4f

abbrev pub make_symbol : Field → Field → Symbol
make_symbol pretty_string unique_string = record {
  pretty = pretty_string;
  unique = unique_string;
  value = unbound_object;
  proc = unbound_object;
  plist = null_object;
}

-- What a reference outside the heap shows: no string.
abbrev pub no_symbol : Symbol
no_symbol = record { pretty = object 0; unique = object 0; value = 0; proc = 0; plist = 0 }

unfoldable pub symbol_at : List Symbol → ℕ → Symbol
symbol_at heap s = get_or heap s no_symbol

-- `IK_REF(s_sym, off_symbol_record_ustring) = IK_TRUE_OBJECT`
unfoldable pub forget_unique : List Symbol → ℕ → List Symbol
unfolding symbol_at
forget_unique heap s =
    let sym = symbol_at heap s in
    set heap s (record {
      pretty = sym.pretty;
      unique = true_object;
      value = sym.value;
      proc = sym.proc;
      plist = sym.plist;
    })
