-- ===== src/Memory/Tests.antt =====
-- A small process at which the theorems of Memory are applied.
use vicare_scheme.Base.{
  true, none, ℕ, zero, suc, ◌+◌, ◌-◌, ◌*◌, ◌<◌, ◌≤◌, ◌≡◌, refl, inl, [], some, arith,
}
use vicare_scheme.Memory.{
  next_page, page_size, segment_size, mainheap, mainstack, data_tag, hole, Pcb, Answers,
}
use vicare_scheme.Memory.Maps.{
  pages_for, mmap, set_range, slot_index, in_memory, set_page_range_type, mmap_typed,
  munmap_from_segment,
}
use vicare_scheme.Memory.Invariant.{page_type, IsPcb, IsFresh}
use vicare_scheme.Memory.Typing.{IsTracked, retyped, used_tracked}
use vicare_scheme.Memory.Mapping.{IsMapped}
use vicare_scheme.Memory.Typed.{mmap_typed-IsMapped}
use vicare_scheme.Memory.Release.{IsReleased, munmap_from_segment-IsReleased}
use vicare_scheme.Memory.Process.{Start, lo_mem, hi_mem, blank_pcb, make_pcb, exit_process}
use vicare_scheme.Memory.Beginning.{IsStart}
use vicare_scheme.Memory.Reach.{Reachable, begun, Reachable-IsPcb, exit_process-Reachable}
use vicare_scheme.Memory.Heap.{Heap, State, align, room_size, unsafe_alloc, safe_alloc}
use vicare_scheme.Memory.Allocation.{IsHeap, IsGranted, IsAllocated, alloc-IsAllocated}

abbrev start : Start
start = record {
  heap = 10 * segment_size;
  heap_size = 4 * page_size;
  stack = 10 * segment_size + 16 * page_size;
  stack_size = 2 * page_size;
  cache = 20 * segment_size;
  dirty = 21 * segment_size;
  segments = 22 * segment_size;
}

start-IsStart : IsStart start
start-IsStart = record {
  heap = refl;
  heap_size = refl;
  heap_above = omega arith;
  heap_some = omega arith;
  stack = refl;
  stack_size = refl;
  stack_above = omega arith;
  stack_some = omega arith;
  apart = inl (omega arith);
  cache = refl;
  dirty = refl;
  segments = refl;
}

-- 4 + 2 + 16 + 2 * 2 pages.
abbrev pcb : Pcb
pcb =
    retyped start.stack start.stack_size mainstack
      (retyped start.heap start.heap_size mainheap (blank_pcb start 26))

make_pcb_start : make_pcb start ≡ some pcb
unfolding make_pcb mmap pages_for set_page_range_type in_memory hi_mem lo_mem blank_pcb next_page
make_pcb_start = refl

pcb-Reachable : Reachable pcb start.heap
pcb-Reachable = begun start pcb start-IsStart make_pcb_start

Reachable-IsPcb_example : IsPcb pcb start.heap 0
Reachable-IsPcb_example = Reachable-IsPcb pcb start.heap pcb-Reachable

exit_process-Reachable_example : exit_process pcb ≡ some tt
exit_process-Reachable_example = exit_process-Reachable pcb start.heap pcb-Reachable

pcb-IsPcb : IsPcb pcb start.heap 0
pcb-IsPcb = Reachable-IsPcb pcb start.heap pcb-Reachable

abbrev answers : Answers
answers = record {
  block = 30 * segment_size;
  dirty = 40 * segment_size;
  segments = 41 * segment_size;
}

ends : pcb.memory_end ≡ 11 * segment_size
unfolding blank_pcb hi_mem
ends = refl

-- No page beyond the tracked memory is in use.
beyond : (a : ℕ) → 11 * segment_size ≤ a → page_type pcb a ≡ hole
beyond a h =
    ground
      (arith, ends, used_tracked pcb a (omega (arith, pcb-IsPcb.base_aligned)) pcb-IsPcb.segments)

answers-IsFresh : (size : ℕ) → IsFresh pcb answers.block size
answers-IsFresh size = record {
  page = refl;
  unused = λ i h. beyond (answers.block + page_size * i) (omega arith);
  uncached = unfold blank_pcb in tt;
}

mmap_typed-IsMapped_example :
    (base : ℕ) × (q : Pcb) × (mmap_typed (2 * page_size) data_tag answers pcb ≡ some (base, q))
    × IsMapped pcb q base (2 * page_size) data_tag start.heap
mmap_typed-IsMapped_example =
    mmap_typed-IsMapped pcb start.heap (2 * page_size) data_tag answers pcb-IsPcb refl (omega arith)
      refl refl (answers-IsFresh (2 * page_size))

stack-IsTracked : IsTracked pcb start.stack start.stack_size
stack-IsTracked = record {
  page = refl;
  whole = refl;
  lower = unfold blank_pcb lo_mem in omega arith;
  upper = unfold blank_pcb hi_mem in omega arith;
  start = unfold blank_pcb lo_mem in refl;
  slots = pcb-IsPcb.segments;
}

stack_used : (i : ℕ) → i < 2 → 0 < page_type pcb (start.stack + page_size * i)
unfolding page_type blank_pcb lo_mem hi_mem set_range slot_index
stack_used zero h = omega arith
stack_used (suc zero) h = omega arith
stack_used (suc (suc i)) h = absurd (omega arith)

munmap_from_segment-IsReleased_example :
    (q : Pcb) × (munmap_from_segment start.stack start.stack_size pcb ≡ some q)
    × IsReleased pcb q start.stack start.stack_size start.heap
munmap_from_segment-IsReleased_example =
    munmap_from_segment-IsReleased pcb start.heap start.stack start.stack_size pcb-IsPcb
      stack-IsTracked stack_used (inl (omega arith)) (omega arith)

-- A hot block with room for 32 bytes.
abbrev heap : Heap
heap = record {
  hot_base = start.heap;
  hot_size = start.heap_size;
  allocation_pointer = start.heap + start.heap_size - 48;
  allocation_redline = start.heap + 2 * page_size;
  full = [];
  count_minor = 0;
  count_major = 0;
}

heap-IsHeap : IsHeap heap
heap-IsHeap = omega arith

wide-IsGranted : IsGranted (4 * page_size) 64 answers pcb
wide-IsGranted = record {
  aligned = unfold align in refl;
  whole = refl;
  two_pages = omega arith;
  word = omega arith;
  dirty = refl;
  segments = refl;
  fresh = answers-IsFresh (room_size (4 * page_size) 64);
}

alloc-IsAllocated_example :
    (a : ℕ) × (t : State) × (unsafe_alloc (4 * page_size) 64 answers (pcb, heap) ≡ some (a, t))
    × (safe_alloc (λ n s. none) true (4 * page_size) 64 answers (pcb, heap) ≡ some (a, t))
    × IsAllocated (pcb, heap) t a 64 start.heap
alloc-IsAllocated_example =
    alloc-IsAllocated (λ n s. none) (4 * page_size) 64 start.heap answers pcb heap pcb-IsPcb
      heap-IsHeap wide-IsGranted
