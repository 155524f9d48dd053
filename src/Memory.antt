-- ===== src/Memory.antt =====
-- The memory of a process (src/ikarus-runtime.c, src/ikarus-collect.c, src/internals.h): pages from the
-- operating system, the vectors that say what each page is used for, the cache of free pages, and the
-- Scheme heap. An address is a number; a process has addresses far below 2 ^ 64, so their sums are exact.
pub mod Maps
pub mod Slots
pub mod Invariant
pub mod Accounts
pub mod Extension
pub mod Typing
pub mod Mapping
pub mod Typed
pub mod Release
pub mod Retyping
pub mod Process
pub mod Exit
pub mod Beginning
pub mod Guardians
pub mod Reach
pub mod Heap
pub mod Allocation
mod Tests
use vicare_scheme.Base.{ℕ, ◌+◌, ◌*◌, ◌/◌, ◌^◌, Bool, true, false, List, Option, none, some}

abbrev pub page_size : ℕ
page_size = 4096

abbrev pub segment_size : ℕ
segment_size = 2 ^ 22

-- `IK_ALIGN_TO_NEXT_PAGE`
unfoldable pub next_page : ℕ → ℕ
next_page x = (x + 4095) / page_size * page_size

-- Main tags of pages.
abbrev pub hole : ℕ
hole = 0x0

abbrev pub mainheap : ℕ
mainheap = 0x100

abbrev pub mainstack : ℕ
mainstack = 0x200

abbrev pub pointers : ℕ
pointers = 0x11300

abbrev pub data_tag : ℕ
data_tag = 0x10400

abbrev pub code_tag : ℕ
code_tag = 0x11500

-- The fields of the process control block that keep track of pages. `cached` is the list of the addresses
-- in `cached_pages`, `uncached` the number of nodes of `uncached_pages`. `protected` has the nodes of
-- `protected_list`, each with its address and its pointers, by generation. A slot vector is the list of
-- its slots, the first of which is for the page at `memory_base`. `total_allocated_pages` is a variable of
-- the file, an `int` that is given by its bit pattern.
pub record Pcb : Type 0 where
  pub total_allocated_pages : ℕ
  pub memory_base : ℕ
  pub memory_end : ℕ
  pub dirty_vector_base : ℕ
  pub dirty_vector : List ℕ
  pub segment_vector_base : ℕ
  pub segment_vector : List ℕ
  pub cached_pages_base : ℕ
  pub cached : List ℕ
  pub uncached : ℕ
  pub protected : List (List (ℕ × List ℕ))

-- A failed `assert` or a call of `ik_abort` is `none`.
infixl 5 ◌>>=◌ ◌>>◌
abbrev pub ◌>>=◌ {ℓ} : {A B : Type ℓ} → Option A → (A → Option B) → Option B
none >>= f = none
some a >>= f = f a

abbrev pub ◌>>◌ {ℓ} : {A B : Type ℓ} → Option A → Option B → Option B
a >> b = a >>= λ x. b

abbrev pub assert : Bool → Option (Unit {0})
assert true = some tt
assert false = none

-- What the operating system answers: the address of the block that is asked for, and of the memory of new
-- slot vectors, where such memory is asked for. Where `mmap` fails, the process ends.
pub record Answers : Type 0 where
  pub block : ℕ
  pub dirty : ℕ
  pub segments : ℕ
