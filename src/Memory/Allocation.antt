-- ===== src/Memory/Allocation.antt =====
-- An allocation gives memory of the hot block that was free.
use vicare_scheme.Base.{
  Option, ℕ, zero, suc, ◌+◌, ◌-◌, ◌*◌, ◌<◌, ◌≤◌, ◌≡◌, refl, ◌⊎◌, inl, inr, true, false, ◌||◌, some,
  arith, leb, ◌==◌, ==_iff, Bool-cases,
}
use vicare_scheme.Numerics.Words.{word_base, sub_words}
use vicare_scheme.Memory.{page_size, next_page, mainheap, Pcb, Answers}
use vicare_scheme.Memory.Maps.{mmap_mainheap}
use vicare_scheme.Memory.Invariant.{IsPage, IsPcb, IsFresh}
use vicare_scheme.Memory.Mapping.{IsMapped}
use vicare_scheme.Memory.Typed.{mmap_typed-IsMapped}
use vicare_scheme.Memory.Heap.{
  safe_alloc, try_alloc, Heap, State, align, hot_end, carry, account_bytes, retire, room_size,
  make_room, has_room, unsafe_alloc,
}

-- The hot block holds the allocation pointer.
pub record IsHeap (h : Heap) : Type 0 where
  pub lower : h.hot_base ≤ h.allocation_pointer
  pub upper : h.allocation_pointer ≤ hot_end h

-- The carry keeps the number of bytes and leaves a minor count below its bound.
pub carry-total :
    (fuel minor major : ℕ)
    → minor < 0x10000000 * (fuel + 1)
    → (0x10000000 * (carry fuel minor major).1 + (carry fuel minor major).0
        ≡ 0x10000000 * major + minor)
      × ((carry fuel minor major).0 < 0x10000000)
unfolding carry
carry-total zero minor major h = omega arith
carry-total (suc fuel) minor major h = elim (Bool-cases (leb 0x10000000 minor)) [
  | inl more ↦
      let low : minor - 0x10000000 < 0x10000000 * (fuel + 1) = ground arith in
      let (sum, small) = carry-total fuel (minor - 0x10000000) (major + 1) low in
      rw more (ground (arith, sum), small)
  | inr done ↦ rw done (refl, ground arith)
]

-- A new hot block is a multiple of pages and has room for the object and more.
pub room :
    (nursery size : ℕ)
    → IsPage nursery
    → 2 * page_size ≤ nursery
    → nursery < word_base
    → IsPage (room_size nursery size) × (size + 2 * page_size ≤ room_size nursery size)
unfolding room_size sub_words next_page
room nursery size whole two fits = ground arith

-- The address `a` is of `size` free bytes of the hot block of `t`: those at the allocation pointer of `s`, or
-- the first of a new block of pages that were in no use.
pub record IsAllocated (s t : State) (a size pinned : ℕ) : Type 0 where
  pub lower : t.1.hot_base ≤ a
  pub upper : a + size < hot_end t.1
  pub pointer : t.1.allocation_pointer ≡ a + size
  pub pages : IsPcb t.0 pinned 0
  pub source :
      ((t.1.hot_base ≡ s.1.hot_base) × (t.1.hot_size ≡ s.1.hot_size) × (a ≡ s.1.allocation_pointer))
      ⊎ ((a ≡ t.1.hot_base)
          × (t.1.full ≡ retire s.1)
          × IsMapped s.0 t.0 a t.1.hot_size mainheap pinned)

-- What the operating system and the caller grant an allocation that may need a new block.
pub record IsGranted (nursery size : ℕ) (k : Answers) (p : Pcb) : Type 0 where
  pub aligned : size ≡ align size
  pub whole : IsPage nursery
  pub two_pages : 2 * page_size ≤ nursery
  pub word : nursery < word_base
  pub dirty : IsPage k.dirty
  pub segments : IsPage k.segments
  pub fresh : IsFresh p k.block (room_size nursery size)

no_room :
    (size : ℕ) (s : State)
    → has_room size s ≡ false
    → (leb (hot_end s.1) (s.1.allocation_pointer + size)
        || leb s.1.allocation_redline (s.1.allocation_pointer + size))
      ≡ true
unfolding has_room
no_room size (p, h) e = ground arith

-- The heap with a new hot block.
abbrev moved : Heap → ℕ → ℕ → Heap
moved h base new_size = record {
  hot_base = base;
  hot_size = new_size;
  allocation_pointer = base;
  allocation_redline = base + new_size - 2 * 4096;
  full = retire h;
  count_minor = (account_bytes h).0;
  count_major = (account_bytes h).1;
}

make_room-moved :
    (nursery size n base : ℕ) (k : Answers) (p q : Pcb) (h : Heap)
    → size ≡ align size
    → has_room size (p, h) ≡ false
    → room_size nursery size ≡ n
    → mmap_mainheap n k p ≡ some (base, q)
    → make_room nursery size k (p, h) ≡ some (q, moved h base n)
unfolding make_room
make_room-moved nursery size n base k p q h aligned full sized runs =
    let ok : (size == align size) ≡ true = (==_iff size (align size)).1 aligned in
    rw (ok, no_room size (p, h) full, sized, runs) refl

new_room :
    (collect : ℕ → State → Option State) (nursery size pinned : ℕ) (k : Answers) (p : Pcb)
    (h : Heap)
    → IsPcb p pinned 0
    → IsGranted nursery size k p
    → (size == align size) ≡ true
    → has_room size (p, h) ≡ false
    → (a : ℕ) × (t : State) × (unsafe_alloc nursery size k (p, h) ≡ some (a, t))
      × (safe_alloc collect true nursery size k (p, h) ≡ some (a, t))
      × IsAllocated (p, h) t a size pinned
unfolding unsafe_alloc safe_alloc try_alloc
new_room collect nursery size pinned k p h wf g ok full =
    let n = room_size nursery size in
    let (whole, wide) = room nursery size g.whole g.two_pages g.word in
    let (base, q, runs, m) =
      mmap_typed-IsMapped p pinned n mainheap k wf whole (omega arith) g.dirty g.segments g.fresh in
    let made : make_room nursery size k (p, h) ≡ some (q, moved h base n) =
      make_room-moved nursery size n base k p q h g.aligned full refl
        (unfold mmap_mainheap in runs) in
    let room_now : has_room size (q, moved h base n) ≡ true =
      unfold has_room in ground (arith, wide) in
    (
      base,
      (q, record (moved h base n) { allocation_pointer = base + size }),
      rw (ok, full, made) refl,
      rw (ok, full, made, room_now) refl,
      record {
        lower = omega arith;
        upper = omega (arith, wide);
        pointer = refl;
        pages = m.kept;
        source = inr (refl, refl, m);
      },
    )

-- In a well-formed process whose hot block holds its allocation pointer, for an aligned size, a
-- nursery size of whole pages, at least two and below 2 ^ 64 bytes, and a new block of the
-- operating system of which the process holds no page, `unsafe_alloc`, and `safe_alloc` while
-- collections are forbidden, succeed with the same address and state. The object ends before the
-- end of the hot block, it begins at the old allocation pointer in the same block, or at the start
-- of a new block of pages that were in no use, the old block being recorded as full, and the
-- allocation pointer is at its end.
pub alloc-IsAllocated :
    (collect : ℕ → State → Option State) (nursery size pinned : ℕ) (k : Answers) (p : Pcb)
    (h : Heap)
    → IsPcb p pinned 0
    → IsHeap h
    → IsGranted nursery size k p
    → (a : ℕ) × (t : State) × (unsafe_alloc nursery size k (p, h) ≡ some (a, t))
      × (safe_alloc collect true nursery size k (p, h) ≡ some (a, t))
      × IsAllocated (p, h) t a size pinned
unfolding unsafe_alloc safe_alloc try_alloc
alloc-IsAllocated collect nursery size pinned k p h wf heap g =
    let ok : (size == align size) ≡ true = (==_iff size (align size)).1 g.aligned in
    elim (Bool-cases (has_room size (p, h))) [
      | inl fits ↦ (
        h.allocation_pointer,
        (p, record h { allocation_pointer = h.allocation_pointer + size }),
        rw (ok, fits) refl,
        rw (ok, fits) refl,
        record {
          lower = heap.lower;
          upper = unfold has_room in ground arith;
          pointer = refl;
          pages = wf;
          source = inl (refl, refl, refl);
        },
      )
      | inr full ↦ new_room collect nursery size pinned k p h wf g ok full
    ]
