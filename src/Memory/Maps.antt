-- ===== src/Memory/Maps.antt =====
-- The functions that map and unmap pages.
use vicare_scheme.Base.{
  ℕ, zero, suc, ◌+◌, ◌-◌, ◌*◌, ◌/◌, ◌%◌, ◌^◌, Bool, true, false, ◌&&◌, List, [], ◌∷◌, ◌++◌, Option,
  some, ltb, leb, ◌==◌, if◌then◌else◌, replicate, get_or,
}
use Prim.Native.Nat.{bit_or}
use vicare_scheme.Memory.{
  page_size, segment_size, next_page, hole, mainheap, pointers, data_tag, code_tag, Pcb, ◌>>=◌,
  ◌>>◌, assert, Answers,
}

-- `IK_MINIMUM_PAGES_NUMBER_FOR_SIZE`
unfoldable pub pages_for : ℕ → ℕ
pages_for size = (size + 4095) / page_size

-- The accounts of `ik_mmap` and `ik_munmap`: they take and give `total_allocated_pages`.
unfoldable pub mmap : ℕ → ℕ → Option ℕ
mmap size total = do
  assert (size == pages_for size * page_size)
  some ((total + pages_for size) % 2 ^ 32)

unfoldable pub munmap : ℕ → ℕ → ℕ → Option ℕ
munmap mem size total = do
  assert (size == pages_for size * page_size)
  assert (mem % page_size == 0)
  some ((total + 2 ^ 32 - pages_for size % 2 ^ 32) % 2 ^ 32)

-- Write `value` to `count` slots from the one at `i` on.
unfoldable pub set_range : ℕ → ℕ → ℕ → List ℕ → List ℕ
set_range i count value [] = []
set_range (suc i) count value (x ∷ xs) = x ∷ set_range i count value xs
set_range zero zero value (x ∷ xs) = x ∷ xs
set_range zero (suc count) value (x ∷ xs) = value ∷ set_range zero count value xs

-- The index in a slot vector of the page at an address.
unfoldable pub slot_index : Pcb → ℕ → ℕ
slot_index p address = address / page_size - p.memory_base / page_size

unfoldable pub in_memory : ℕ → ℕ → Pcb → Bool
in_memory base size p =
    leb p.memory_base base && (leb (base + size) p.memory_end && (size == next_page size))

unfoldable pub set_page_range_type : ℕ → ℕ → ℕ → Pcb → Option Pcb
set_page_range_type base size type p = do
  assert (in_memory base size p)
  some (record p {
    segment_vector = set_range (slot_index p base) (size / page_size) type p.segment_vector;
  })

-- A new slot vector in place of an old one, by sizes in bytes and the address of the old one.
unfoldable pub replace_vector : ℕ → ℕ → ℕ → ℕ → Option ℕ
replace_vector new_size old old_size total = do t ← mmap new_size total; munmap old old_size t

-- The number of slots that a size in bytes holds.
abbrev pub slots_in : ℕ → ℕ
slots_in size = size / 4

unfoldable pub extend_low : ℕ → Answers → Pcb → Option Pcb
extend_low base k p = do
  let new_lo = base / segment_size
  let hi = p.memory_end / segment_size
  let new_size = (hi - new_lo) * 4096
  let old_size = (hi - p.memory_base / segment_size) * 4096
  t ← replace_vector new_size p.dirty_vector_base old_size p.total_allocated_pages
  u ← replace_vector new_size p.segment_vector_base old_size t
  some (record p {
    total_allocated_pages = u;
    dirty_vector_base = k.dirty;
    dirty_vector = replicate (slots_in (new_size - old_size)) 0 ++ p.dirty_vector;
    segment_vector_base = k.segments;
    segment_vector = replicate (slots_in (new_size - old_size)) 0 ++ p.segment_vector;
    memory_base = new_lo * segment_size;
  })

unfoldable pub extend_high : ℕ → Answers → Pcb → Option Pcb
extend_high end k p = do
  let lo = p.memory_base / segment_size
  let new_hi = (end + segment_size - 1) / segment_size
  let new_size = (new_hi - lo) * 4096
  let old_size = (p.memory_end / segment_size - lo) * 4096
  t ← replace_vector new_size p.dirty_vector_base old_size p.total_allocated_pages
  u ← replace_vector new_size p.segment_vector_base old_size t
  some (record p {
    total_allocated_pages = u;
    dirty_vector_base = k.dirty;
    dirty_vector = p.dirty_vector ++ replicate (slots_in (new_size - old_size)) 0;
    segment_vector_base = k.segments;
    segment_vector = p.segment_vector ++ replicate (slots_in (new_size - old_size)) 0;
    memory_end = new_hi * segment_size;
  })

unfoldable pub extend_page_vectors_maybe : ℕ → ℕ → Answers → Pcb → Option Pcb
extend_page_vectors_maybe base size k p = do
  assert (size == next_page size)
  if ltb base p.memory_base
      then extend_low base k p
      else if leb p.memory_end (base + size)
      then extend_high (base + size) k p
      else some p

-- `base` of `ik_mmap_typed` by a new map.
unfoldable pub new_block : ℕ → Answers → Pcb → Option (ℕ × Pcb)
new_block size k p = do
  t ← mmap size p.total_allocated_pages
  some (k.block, record p { total_allocated_pages = t })

-- `base` of `ik_mmap_typed`, from the cache where one page is asked for and there is one.
unfoldable pub take_block : ℕ → Answers → List ℕ → Pcb → Option (ℕ × Pcb)
take_block size k [] p = new_block size k p
take_block size k (base ∷ rest) p =
    if size == page_size
    then some (base, record p { cached = rest; uncached = p.uncached + 1 })
    else new_block size k p

unfoldable pub mmap_typed : ℕ → ℕ → Answers → Pcb → Option (ℕ × Pcb)
mmap_typed size type k p = do
  taken ← take_block size k p.cached p
  q ← extend_page_vectors_maybe taken.0 size k taken.1
  r ← set_page_range_type taken.0 size type q
  some (taken.0, r)

unfoldable pub mmap_ptr : ℕ → ℕ → Answers → Pcb → Option (ℕ × Pcb)
mmap_ptr size gen k p = mmap_typed size (bit_or pointers gen) k p

unfoldable pub mmap_data : ℕ → ℕ → Answers → Pcb → Option (ℕ × Pcb)
mmap_data size gen k p = mmap_typed size (bit_or data_tag gen) k p

unfoldable pub mmap_code : ℕ → ℕ → Answers → Pcb → Option (ℕ × Pcb)
mmap_code aligned_size gen k p = do
  m ← mmap_typed aligned_size (bit_or code_tag gen) k p
  if ltb page_size aligned_size then mark_rest m else some m
  where
    mark_rest : ℕ × Pcb → Option (ℕ × Pcb)
    mark_rest m = do
      q ← set_page_range_type (m.0 + page_size) (aligned_size - page_size) (bit_or data_tag gen) m.1
      some (m.0, q)

unfoldable pub mmap_mainheap : ℕ → Answers → Pcb → Option (ℕ × Pcb)
mmap_mainheap size k p = mmap_typed size mainheap k p

-- Whether no slot in a range is a hole.
unfoldable pub no_holes : ℕ → ℕ → List ℕ → Bool
no_holes i zero xs = true
no_holes i (suc count) xs = if get_or xs i 0 == hole then false else no_holes (suc i) count xs

-- `size -= IK_PAGESIZE` on a word, which wraps around.
unfoldable pub one_page_less : ℕ → ℕ
one_page_less size = if ltb size page_size then size + 2 ^ 64 - page_size else size - page_size

-- Where there are free nodes: push pages from `base` on to the cache, at least one, until the nodes or the
-- bytes are used up. The cache, the number of free nodes, and what is left of the block, in bytes.
unfoldable pub fill_cache : ℕ → ℕ → ℕ → List ℕ → List ℕ × ℕ × ℕ × ℕ
fill_cache zero base size cached = (cached, zero, base, size)
fill_cache (suc nodes) base size cached =
    let left = one_page_less size in
    let more = fill_cache nodes (base + page_size) left (base ∷ cached) in
    if left == 0 then (base ∷ cached, nodes, base + page_size, 0) else more

unfoldable pub munmap_from_segment : ℕ → ℕ → Pcb → Option Pcb
munmap_from_segment base size p = do
  assert (in_memory base size p)
  let i = slot_index p base
  let count = size / page_size
  assert (no_holes i count p.segment_vector)
  let (cached, nodes, rest, left) = fill_cache p.uncached base size p.cached
  t ← if left == 0 then some p.total_allocated_pages else munmap rest left p.total_allocated_pages
  some (record p {
    total_allocated_pages = t;
    segment_vector = set_range i count hole p.segment_vector;
    dirty_vector = set_range i count 0 p.dirty_vector;
    cached = cached;
    uncached = nodes;
  })

-- `IK_SIGNAL_DIRT_IN_PAGE_OF_POINTER`, for a pointer into the tracked memory. On any other the C code
-- writes outside the vector.
unfoldable pub signal_dirt : ℕ → Pcb → Pcb
signal_dirt pointer p = record p {
  dirty_vector = set_range (slot_index p pointer) 1 0xFFFFFFFF p.dirty_vector;
}
