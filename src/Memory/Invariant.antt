-- ===== src/Memory/Invariant.antt =====
-- What is true of a process between two operations on its memory.
use vicare_scheme.Base.{
  ℕ, ◌+◌, ◌-◌, ◌*◌, ◌/◌, ◌%◌, ◌^◌, ◌<◌, ◌≤◌, ◌≡◌, ◌⊎◌, List, [], ◌∷◌, leb, if◌then◌else◌, length,
  get_or, All,
}
use vicare_scheme.Memory.{page_size, segment_size, hole, Pcb}
use vicare_scheme.Memory.Slots.{used}

-- What the segment vector says of the page at an address: a hole outside of it.
unfoldable pub page_type : Pcb → ℕ → ℕ
page_type p a =
    if leb p.memory_base a
    then get_or p.segment_vector (a / page_size - p.memory_base / page_size) 0
    else 0

abbrev pub IsPage : ℕ → Type 0
IsPage a = a % page_size ≡ 0

-- A page of the cache is mapped, and in no other use.
abbrev pub IsFree : Pcb → ℕ → Type 0
IsFree p a = IsPage a × (page_type p a ≡ hole)

abbrev pub Differs : ℕ → ℕ → Type 0
Differs a b = (a < b) ⊎ (b < a)

abbrev pub IsDistinct : List ℕ → Type 0
IsDistinct [] = Unit
IsDistinct (a ∷ rest) = All (Differs a) rest × IsDistinct rest

abbrev pub guardian_pages : List (List (ℕ × List ℕ)) → ℕ
guardian_pages [] = 0
guardian_pages (nodes ∷ rest) = length nodes + guardian_pages rest

-- The pages that a process has mapped: the nodes of the cache, the cached pages, the pages in use, those of
-- guardians, and the two slot vectors.
unfoldable pub held : Pcb → ℕ
held p =
    16
    + length p.cached
    + used p.segment_vector
    + guardian_pages p.protected
    + 2 * ((p.memory_end - p.memory_base) / segment_size)

-- `pinned` is a page in use, and `loose` the number of mapped pages that nothing refers to yet.
pub record IsPcb (p : Pcb) (pinned loose : ℕ) : Type 0 where
  pub base_aligned : p.memory_base % segment_size ≡ 0
  pub end_aligned : p.memory_end % segment_size ≡ 0
  pub segments : p.memory_base + page_size * length p.segment_vector ≡ p.memory_end
  pub dirty : length p.dirty_vector ≡ length p.segment_vector
  pub cache_nodes : length p.cached + p.uncached ≡ 4096
  pub cached_free : All (IsFree p) p.cached
  pub cached_distinct : IsDistinct p.cached
  pub dirty_address : IsPage p.dirty_vector_base
  pub segment_address : IsPage p.segment_vector_base
  pub cache_address : IsPage p.cached_pages_base
  pub guardians : All (All (λ n. IsPage n.0)) p.protected
  pub generations : length p.protected ≡ 5
  pub account : p.total_allocated_pages ≡ (held p + loose) % 2 ^ 32
  pub pinned_page : IsPage pinned
  pub pinned_used : 0 < page_type p pinned

-- What the operating system promises of a new block: the process holds none of its pages.
pub record IsFresh (p : Pcb) (base size : ℕ) : Type 0 where
  pub page : IsPage base
  pub unused : (i : ℕ) → i < size / page_size → page_type p (base + page_size * i) ≡ hole
  pub uncached : All (λ c. (c < base) ⊎ (base + size ≤ c)) p.cached
