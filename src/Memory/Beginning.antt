-- ===== src/Memory/Beginning.antt =====
-- `ik_make_pcb` gives a well-formed process.
use vicare_scheme.Base.{
  ℕ, ◌+◌, ◌-◌, ◌*◌, ◌/◌, ◌%◌, ◌^◌, ◌<◌, ◌≤◌, ◌≡◌, refl, ap, ◌∙◌, ◌⊎◌, inl, inr, some, arith, leb,
  Bool-cases, length-replicate,
}
use vicare_scheme.Memory.{page_size, segment_size, hole, mainheap, mainstack, Pcb}
use vicare_scheme.Memory.Maps.{mmap, slot_index}
use vicare_scheme.Memory.Slots.{used, used-holes, get_or-holes, length-set_range}
use vicare_scheme.Memory.Invariant.{page_type, IsPage, held, IsPcb}
use vicare_scheme.Memory.Accounts.{mmap-pages}
use vicare_scheme.Memory.Typing.{
  IsTracked, retyped, retyped-inside, retyped-outside, used-retyped, set_page_range_type-retyped,
}
use vicare_scheme.Memory.Mapping.{Outside}
use vicare_scheme.Memory.Process.{Start, lo_mem, hi_mem, blank_pcb, make_pcb}

-- What the operating system promises of the first blocks: they are page aligned and apart.
pub record IsStart (s : Start) : Type 0 where
  pub heap : IsPage s.heap
  pub heap_size : IsPage s.heap_size
  pub heap_above : page_size ≤ s.heap
  pub heap_some : 0 < s.heap_size
  pub stack : IsPage s.stack
  pub stack_size : IsPage s.stack_size
  pub stack_above : page_size ≤ s.stack
  pub stack_some : 0 < s.stack_size
  pub apart : (s.heap + s.heap_size ≤ s.stack) ⊎ (s.stack + s.stack_size ≤ s.heap)
  pub cache : IsPage s.cache
  pub dirty : IsPage s.dirty
  pub segments : IsPage s.segments

module _ (s : Start) (h : IsStart s) where
  abbrev vector_pages : ℕ
  vector_pages = (hi_mem s + segment_size - 1) / segment_size - lo_mem s / segment_size

  bounds :
      (lo_mem s ≤ s.heap)
      × (lo_mem s ≤ s.stack)
      × (s.heap + s.heap_size ≤ hi_mem s)
      × (s.stack + s.stack_size ≤ hi_mem s)
  unfolding lo_mem hi_mem
  bounds = ground (arith, h.apart, h.heap_above, h.stack_above, h.heap_some, h.stack_some)

  abbrev first_total : ℕ
  first_total =
      ((((0 + s.heap_size / page_size) % 2 ^ 32 + s.stack_size / page_size) % 2 ^ 32 + 16) % 2 ^ 32
        + vector_pages)
      % 2 ^ 32

  abbrev total : ℕ
  total = (first_total + vector_pages) % 2 ^ 32

  abbrev blank : Pcb
  blank = blank_pcb s total

  blank_holes : (a : ℕ) → page_type blank a ≡ hole
  unfolding page_type blank_pcb
  blank_holes a = elim (Bool-cases (leb (lo_mem s / segment_size * segment_size) a)) [
    | inl above ↦ rw above (
        get_or-holes (vector_pages * 4096 / 4)
          (a / page_size - lo_mem s / segment_size * segment_size / page_size))
    | inr below ↦ rw below refl
  ]

  mapped : (size t : ℕ) → IsPage size → mmap size t ≡ some ((t + size / page_size) % 2 ^ 32)
  mapped size t whole =
      let e : size / page_size * 4096 ≡ size = omega arith in
      rw e at (mmap-pages (size / page_size) t)

  blank-IsTracked :
      (base size : ℕ)
      → IsPage base
      → IsPage size
      → lo_mem s ≤ base
      → base + size ≤ hi_mem s
      → IsTracked blank base size
  unfolding blank_pcb
  blank-IsTracked base size page whole low high = record {
    page = page;
    whole = whole;
    lower = omega arith;
    upper = omega arith;
    start = omega arith;
    slots = omega (
      arith,
      length-replicate {A = ℕ}
          (((hi_mem s + segment_size - 1) / segment_size - lo_mem s / segment_size) * 4096 / 4) 0,
    );
  }

  abbrev with_heap : Pcb
  with_heap = retyped s.heap s.heap_size mainheap blank

  abbrev complete : Pcb
  complete = retyped s.stack s.stack_size mainstack with_heap

  heap-IsTracked : IsTracked blank s.heap s.heap_size
  heap-IsTracked =
      let (l, m, u, v) = bounds in blank-IsTracked s.heap s.heap_size h.heap h.heap_size l u

  stack-IsTracked : IsTracked with_heap s.stack s.stack_size
  stack-IsTracked =
      let (l, m, u, v) = bounds in
      let t = blank-IsTracked s.stack s.stack_size h.stack h.stack_size m v in
      record {
        page = t.page;
        whole = t.whole;
        lower = t.lower;
        upper = t.upper;
        start = t.start;
        slots =
            rw
              (length-set_range (slot_index blank s.heap) (s.heap_size / page_size) mainheap
                blank.segment_vector)
              t.slots;
      }

  stack_holes :
      (i : ℕ) → i < s.stack_size / page_size → page_type with_heap (s.stack + page_size * i) ≡ hole
  stack_holes i lt =
      let out : Outside s.heap s.heap_size (s.stack + page_size * i) = elim h.apart [
        | inl before ↦ inr (omega arith)
        | inr after ↦ inl (omega (arith, h.stack_size))
      ] in
      retyped-outside blank s.heap s.heap_size heap-IsTracked mainheap (s.stack + page_size * i)
        (omega (arith, h.stack)) out
      ∙ blank_holes (s.stack + page_size * i)

  heap_typed : page_type complete s.heap ≡ mainheap
  heap_typed =
      let out : Outside s.stack s.stack_size s.heap = elim h.apart [
        | inl before ↦ inl (omega (arith, h.heap_some))
        | inr after ↦ inr after
      ] in
      let first : page_type with_heap (s.heap + page_size * 0) ≡ mainheap =
        retyped-inside blank s.heap s.heap_size heap-IsTracked mainheap 0
          (omega (arith, h.heap_size, h.heap_some)) in
      retyped-outside with_heap s.stack s.stack_size stack-IsTracked mainstack s.heap h.heap out
      ∙ ap (page_type with_heap) (omega arith)
      ∙ first

  in_use : used complete.segment_vector ≡ s.stack_size / page_size + (s.heap_size / page_size + 0)
  in_use =
      let none_used : used blank.segment_vector ≡ 0 =
        unfold blank_pcb in used-holes (vector_pages * 4096 / 4) in
      used-retyped with_heap s.stack s.stack_size stack-IsTracked mainstack stack_holes
        (omega arith)
      ∙ ap (λ n. s.stack_size / page_size + n)
          (used-retyped blank s.heap s.heap_size heap-IsTracked mainheap
              (λ i lt. blank_holes (s.heap + page_size * i)) (omega arith)
            ∙ ap (λ n. s.heap_size / page_size + n) none_used)

  make_pcb-runs : make_pcb s ≡ some complete
  unfolding make_pcb
  make_pcb-runs =
      rw
        (
          mapped s.heap_size 0 h.heap_size,
          mapped s.stack_size ((0 + s.heap_size / page_size) % 2 ^ 32) h.stack_size,
          mmap-pages 16
              (((0 + s.heap_size / page_size) % 2 ^ 32 + s.stack_size / page_size) % 2 ^ 32),
          mmap-pages vector_pages (
              (((0 + s.heap_size / page_size) % 2 ^ 32 + s.stack_size / page_size) % 2 ^ 32 + 16)
              % 2 ^ 32),
          mmap-pages vector_pages first_total,
          set_page_range_type-retyped blank s.heap s.heap_size heap-IsTracked mainheap,
        )
        (set_page_range_type-retyped with_heap s.stack s.stack_size stack-IsTracked mainstack)

  account : total ≡ (held complete + 0) % 2 ^ 32
  unfolding held blank_pcb
  account = omega (arith, in_use)

  complete-IsPcb : IsPcb complete s.heap 0
  complete-IsPcb = record {
    base_aligned = unfold blank_pcb in omega arith;
    end_aligned = unfold blank_pcb in omega arith;
    segments =
        rw
          (length-set_range (slot_index with_heap s.stack) (s.stack_size / page_size) mainstack
            with_heap.segment_vector)
          stack-IsTracked.slots;
    dirty =
        rw
          (
            length-set_range (slot_index with_heap s.stack) (s.stack_size / page_size) mainstack
                with_heap.segment_vector,
            length-set_range (slot_index blank s.heap) (s.heap_size / page_size) mainheap
                blank.segment_vector,
          )
          (unfold blank_pcb in refl);
    cache_nodes = unfold blank_pcb in refl;
    cached_free = unfold blank_pcb in tt;
    cached_distinct = unfold blank_pcb in tt;
    dirty_address = unfold blank_pcb in h.dirty;
    segment_address = unfold blank_pcb in h.segments;
    cache_address = unfold blank_pcb in h.cache;
    guardians = unfold blank_pcb in (tt, (tt, (tt, (tt, (tt, tt)))));
    generations = unfold blank_pcb in refl;
    account = unfold blank_pcb in account;
    pinned_page = h.heap;
    pinned_used = rw heap_typed (omega arith);
  }

  pub make_pcb-IsPcb : (p : Pcb) × (make_pcb s ≡ some p) × IsPcb p s.heap 0
  make_pcb-IsPcb = (complete, make_pcb-runs, complete-IsPcb)
