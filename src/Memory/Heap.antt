-- ===== src/Memory/Heap.antt =====
-- Memory for Scheme objects on the heap: `ik_safe_alloc`, `ik_unsafe_alloc`, `ik_make_room_in_heap_nursery`.
use vicare_scheme.Base.{
  ℕ, zero, suc, ◌+◌, ◌-◌, ◌*◌, ◌/◌, ◌^◌, ◌%◌, Bool, ◌||◌, List, ◌∷◌, Option, none, some, ltb, leb,
  ◌==◌, if◌then◌else◌,
}
use vicare_scheme.Numerics.Words.{sub_words}
use vicare_scheme.Memory.{page_size, next_page, Pcb, ◌>>=◌, ◌>>◌, assert, Answers}
use vicare_scheme.Memory.Maps.{mmap_mainheap}

-- The hot block of the nursery, the blocks that were full, and the counts of allocated bytes.
pub record Heap : Type 0 where
  pub hot_base : ℕ
  pub hot_size : ℕ
  pub allocation_pointer : ℕ
  pub allocation_redline : ℕ
  pub full : List (ℕ × ℕ)
  pub count_minor : ℕ
  pub count_major : ℕ

abbrev pub State : Type 0
State = Pcb × Heap

-- `IK_ALIGN`
unfoldable pub align : ℕ → ℕ
align n = (n + 15) / 16 * 16

-- The end of the hot block.
abbrev pub hot_end : Heap → ℕ
hot_end h = h.hot_base + h.hot_size

-- The loop that carries from the minor to the major count, with fuel.
unfoldable pub carry : ℕ → ℕ → ℕ → ℕ × ℕ
carry zero minor major = (minor, major)
carry (suc fuel) minor major =
    let rest = carry fuel (minor - 0x10000000) (major + 1) in
    if leb 0x10000000 minor then rest else (minor, major)

unfoldable pub account_bytes : Heap → ℕ × ℕ
account_bytes h =
    let minor = h.allocation_pointer - h.hot_base + h.count_minor in
    carry (minor / 0x10000000) minor h.count_major

-- The full blocks once the hot one is left; there is none before the first. A size is kept in an `int`.
unfoldable pub retire : Heap → List (ℕ × ℕ)
retire h = if h.allocation_pointer == 0 then h.full else (h.hot_base, h.hot_size % 2 ^ 32) ∷ h.full

-- The size of a new block, for `ik_customisable_heap_nursery_size`; the difference wraps around.
unfoldable pub room_size : ℕ → ℕ → ℕ
room_size nursery size =
    if ltb (sub_words nursery (2 * page_size)) size
    then next_page (size + 2 * page_size)
    else nursery

unfoldable pub make_room : ℕ → ℕ → Answers → State → Option State
make_room nursery size k (p, h) = do
  assert (size == align size)
  assert (
      leb (hot_end h) (h.allocation_pointer + size)
      || leb h.allocation_redline (h.allocation_pointer + size))
  let new_size = room_size nursery size
  let counts = account_bytes h
  m ← mmap_mainheap new_size k p
  some (
    m.1,
    record {
      hot_base = m.0;
      hot_size = new_size;
      allocation_pointer = m.0;
      allocation_redline = m.0 + new_size - 2 * 4096;
      full = retire h;
      count_minor = counts.0;
      count_major = counts.1;
    },
  )

-- The address of the allocated memory, and the state after it.
abbrev pub advance : ℕ → State → ℕ × State
advance size (p, h) =
    (h.allocation_pointer, (p, record h { allocation_pointer = h.allocation_pointer + size }))

unfoldable pub has_room : ℕ → State → Bool
has_room size (p, h) = ltb (h.allocation_pointer + size) (hot_end h)

unfoldable pub unsafe_alloc : ℕ → ℕ → Answers → State → Option (ℕ × State)
unsafe_alloc nursery size k s = do
  assert (size == align size)
  if has_room size s
      then some (advance size s)
      else make_room nursery size k s >>= λ t. some (advance size t)

-- The allocation that must succeed, or the process is ended.
unfoldable pub try_alloc : ℕ → State → Option (ℕ × State)
try_alloc size s = if has_room size s then some (advance size s) else none

-- `collect` is `ik_automatic_collect_from_C`.
unfoldable pub safe_alloc :
    (ℕ → State → Option State) → Bool → ℕ → ℕ → Answers → State → Option (ℕ × State)
safe_alloc collect forbidden nursery size k s = do
  assert (size == align size)
  if has_room size s
      then some (advance size s)
      else if forbidden
      then make_room nursery size k s >>= try_alloc size
      else collect size s >>= try_alloc size
