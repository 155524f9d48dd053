-- ===== src/Memory/Process.antt =====
-- A process begins (`ik_make_pcb`), registers guardians, and ends (`ik_delete_pcb`, `ikrt_exit`).
use vicare_scheme.Base.{
  ℕ, suc, ◌+◌, ◌-◌, ◌*◌, ◌/◌, Bool, true, List, [], ◌∷◌, ◌++◌, Option, some, ltb, ◌==◌,
  if◌then◌else◌, length, replicate,
}
use vicare_scheme.Memory.{page_size, segment_size, hole, mainheap, mainstack, Pcb, ◌>>=◌, assert}
use vicare_scheme.Memory.Maps.{mmap, munmap, set_page_range_type}

-- `sizeof (ikpage_t)` is 16.
abbrev pub cache_slots : ℕ
cache_slots = 4096

abbrev pub cache_bytes : ℕ
cache_bytes = cache_slots * 16

-- The addresses of the first blocks, as the operating system gives them.
pub record Start : Type 0 where
  pub heap : ℕ
  pub heap_size : ℕ
  pub stack : ℕ
  pub stack_size : ℕ
  pub cache : ℕ
  pub dirty : ℕ
  pub segments : ℕ

unfoldable pub lo_mem : Start → ℕ
lo_mem s = if ltb s.heap s.stack then s.heap - page_size else s.stack - page_size

unfoldable pub hi_mem : Start → ℕ
hi_mem s =
    if ltb s.heap s.stack
    then s.stack + s.stack_size + page_size
    else s.heap + s.heap_size + page_size

-- The process control block before its two blocks are registered.
unfoldable pub blank_pcb : Start → ℕ → Pcb
blank_pcb s total =
    let lo = lo_mem s / segment_size in
    let hi = (hi_mem s + segment_size - 1) / segment_size in
    record {
      total_allocated_pages = total;
      memory_base = lo * segment_size;
      memory_end = hi * segment_size;
      dirty_vector_base = s.dirty;
      dirty_vector = replicate ((hi - lo) * 4096 / 4) 0;
      segment_vector_base = s.segments;
      segment_vector = replicate ((hi - lo) * 4096 / 4) 0;
      cached_pages_base = s.cache;
      cached = [];
      uncached = cache_slots;
      protected = replicate 5 [];
    }

-- What `ik_make_pcb` does with pages, from a `total_allocated_pages` of 0.
unfoldable pub make_pcb : Start → Option Pcb
make_pcb s = do
  let vec_size = ((hi_mem s + segment_size - 1) / segment_size - lo_mem s / segment_size) * 4096
  t₁ ← mmap s.heap_size 0
  t₂ ← mmap s.stack_size t₁
  t₃ ← mmap cache_bytes t₂
  t₄ ← mmap vec_size t₃
  t₅ ← mmap vec_size t₄
  p ← set_page_range_type s.heap s.heap_size mainheap (blank_pcb s t₅)
  set_page_range_type s.stack s.stack_size mainstack p

-- `IK_PTR_PAGE_NUMBER_OF_GUARDIANS_SLOTS`
abbrev pub guardian_slots : ℕ
guardian_slots = (page_size - 8 - 8) / 8

-- A pointer is stored in the first node, or in a new node at `address` where there is no room.
unfoldable pub store_guardian : ℕ → ℕ → List (ℕ × List ℕ) → List (ℕ × List ℕ)
store_guardian address pair [] = (address, pair ∷ []) ∷ []
store_guardian address pair ((node, ptrs) ∷ rest) =
    if guardian_slots == length ptrs
    then (address, pair ∷ []) ∷ (node, ptrs) ∷ rest
    else (node, ptrs ++ pair ∷ []) ∷ rest

unfoldable pub needs_node : List (ℕ × List ℕ) → Bool
needs_node [] = true
needs_node ((node, ptrs) ∷ rest) = guardian_slots == length ptrs

unfoldable pub store_in_first : ℕ → ℕ → List (List (ℕ × List ℕ)) → List (List (ℕ × List ℕ))
store_in_first address pair [] = []
store_in_first address pair (nodes ∷ older) = store_guardian address pair nodes ∷ older

abbrev pub first_nodes : List (List (ℕ × List ℕ)) → List (ℕ × List ℕ)
first_nodes [] = []
first_nodes (nodes ∷ older) = nodes

-- Guardians are of generation 0.
unfoldable pub register_guardian_pair : ℕ → ℕ → Pcb → Option Pcb
register_guardian_pair pair address p = do
  t ←
      if needs_node (first_nodes p.protected)
      then mmap page_size p.total_allocated_pages
      else some p.total_allocated_pages
  some (record p { total_allocated_pages = t; protected = store_in_first address pair p.protected })

unfoldable pub release_cached : List ℕ → ℕ → Option ℕ
release_cached [] total = some total
release_cached (base ∷ rest) total = do t ← munmap base page_size total; release_cached rest t

unfoldable pub release_nodes : List (ℕ × List ℕ) → ℕ → Option ℕ
release_nodes [] total = some total
release_nodes (node ∷ rest) total = do t ← munmap node.0 page_size total; release_nodes rest t

unfoldable pub release_guardians : List (List (ℕ × List ℕ)) → ℕ → Option ℕ
release_guardians [] total = some total
release_guardians (nodes ∷ rest) total = do t ← release_nodes nodes total; release_guardians rest t

-- The loop over the segment vector, from the page of index `page` on.
unfoldable pub release_used : ℕ → List ℕ → ℕ → Option ℕ
release_used page [] total = some total
release_used page (type ∷ rest) total = do
  t ← if type == hole then some total else munmap (page * page_size) page_size total
  release_used (suc page) rest t

-- `total_allocated_pages` after `ik_delete_pcb`.
unfoldable pub delete_pcb : Pcb → Option ℕ
delete_pcb p = do
  let vec_size = (p.memory_end / segment_size - p.memory_base / segment_size) * 4096
  t₁ ← release_cached p.cached p.total_allocated_pages
  t₂ ← munmap p.cached_pages_base cache_bytes t₁
  t₃ ← release_guardians p.protected t₂
  t₄ ← release_used (p.memory_base / page_size) p.segment_vector t₃
  t₅ ← munmap p.dirty_vector_base vec_size t₄
  munmap p.segment_vector_base vec_size t₅

-- `ikrt_exit`, up to the call of `exit`.
unfoldable pub exit_process : Pcb → Option (Unit {0})
exit_process p = do total ← delete_pcb p; assert (0 == total)
