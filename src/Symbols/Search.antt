-- ===== src/Symbols/Search.antt =====
-- The search of a bucket, which the functions of src/ikarus-symbol-table.c repeat. A bucket is the list
-- of its symbols; where the list ends the code finds the word 0, as in an empty bucket.
pub mod Keys
pub mod Writes
use vicare_scheme.Base.{
  ℕ, ◌≡◌, Bool, true, false, Option, none, some, List, [], ◌∷◌, if◌then◌else◌, length, get_or, set,
  replicate, ◌++◌,
}
use vicare_scheme.Symbols.Text.{strings_eqp}
use vicare_scheme.Symbols.Hash.{bucket_index}
use vicare_scheme.Symbols.Objects.{Field, text, object, Symbol, symbol_at}

-- A function returns, ends the process by `ik_abort`, or reads a string where there is none.
pub data Run {ℓ} (A : Type ℓ) : Type ℓ where
  ok : A → Run A
  aborted : Run A
  wild : Run A

-- One step of the loop: the key of a symbol, and what the rest of the bucket gives.
unfoldable pub compare_key : List ℕ → ℕ → Field → Run (Option ℕ) → Run (Option ℕ)
compare_key key s (text t) later = if strings_eqp t key then ok (some s) else later
compare_key key s (object w) later = wild

-- The loop over a bucket: the first symbol whose key is the given string.
unfoldable pub search : (Symbol → Field) → List ℕ → List Symbol → List ℕ → Run (Option ℕ)
search field key heap [] = ok none
search field key heap (s ∷ rest) =
    compare_key key s (field (symbol_at heap s)) (search field key heap rest)

unfoldable pub make_symbol_table : List (List ℕ)
make_symbol_table = replicate 4096 []

-- The symbol in a table that has the given string.
unfoldable pub lookup : (Symbol → Field) → List ℕ → List Symbol → List (List ℕ) → Run (Option ℕ)
lookup field key heap buckets =
    search field key heap (get_or buckets (bucket_index key (length buckets)) [])

-- A pair is put before the bucket of a string.
unfoldable pub prepend : List ℕ → ℕ → List (List ℕ) → List (List ℕ)
prepend key s buckets =
    let i = bucket_index key (length buckets) in set buckets i (s ∷ get_or buckets i [])
