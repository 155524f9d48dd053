-- ===== src/Memory/Typed.antt =====
-- `ik_mmap_typed` never fails an assertion, and gives a block that nothing else uses.
use vicare_scheme.Base.{
  ℕ, ◌+◌, ◌*◌, ◌/◌, ◌%◌, ◌^◌, ◌<◌, ◌≡◌, refl, inl, inr, List, [], ◌∷◌, Option, none, some, arith,
  ◌==◌, ==_iff, Bool-cases, All,
}
use mathlib.Core.Option.{none-ne-some}
use vicare_scheme.Memory.{page_size, hole, Pcb, ◌>>=◌, Answers}
use vicare_scheme.Memory.Maps.{
  mmap, set_page_range_type, extend_page_vectors_maybe, new_block, take_block, mmap_typed,
}
use vicare_scheme.Memory.Invariant.{
  page_type, IsPage, IsFree, Differs, IsDistinct, held, IsPcb, IsFresh,
}
use vicare_scheme.Memory.Accounts.{mmap-pages}
use vicare_scheme.Memory.Mapping.{Outside, IsMapped, recorded}

-- A block from `mmap`.
new_block-IsPcb :
    (p : Pcb) (pinned size : ℕ)
    → IsPcb p pinned 0
    → IsPage size
    → IsPcb
        (record p { total_allocated_pages = (p.total_allocated_pages + size / page_size) % 2 ^ 32 })
        pinned
        (size / page_size)
unfolding held page_type
new_block-IsPcb p pinned size wf whole = record {
  base_aligned = wf.base_aligned;
  end_aligned = wf.end_aligned;
  segments = wf.segments;
  dirty = wf.dirty;
  cache_nodes = wf.cache_nodes;
  cached_free = wf.cached_free;
  cached_distinct = wf.cached_distinct;
  dirty_address = wf.dirty_address;
  segment_address = wf.segment_address;
  cache_address = wf.cache_address;
  guardians = wf.guardians;
  generations = wf.generations;
  account = omega (arith, wf.account);
  pinned_page = wf.pinned_page;
  pinned_used = wf.pinned_used;
}

-- A page from the cache.
cached_block-IsPcb :
    (p : Pcb) (pinned base : ℕ) (rest : List ℕ)
    → p.cached ≡ base ∷ rest
    → IsPcb p pinned 0
    → IsPcb (record p { cached = rest; uncached = p.uncached + 1 }) pinned 1
unfolding held page_type
cached_block-IsPcb p pinned base rest e wf =
    let nodes = rw e at wf.cache_nodes in
    let account = rw e at wf.account in
    let free = rw e at wf.cached_free in
    let distinct = rw e at wf.cached_distinct in
    record {
      base_aligned = wf.base_aligned;
      end_aligned = wf.end_aligned;
      segments = wf.segments;
      dirty = wf.dirty;
      cache_nodes = omega (arith, nodes);
      cached_free = free.1;
      cached_distinct = distinct.1;
      dirty_address = wf.dirty_address;
      segment_address = wf.segment_address;
      cache_address = wf.cache_address;
      guardians = wf.guardians;
      generations = wf.generations;
      account = omega (arith, account);
      pinned_page = wf.pinned_page;
      pinned_used = wf.pinned_used;
    }

apart :
    (p : Pcb) (base : ℕ) (cs : List ℕ)
    → IsPage base
    → All (IsFree p) cs
    → All (Differs base) cs
    → All (Outside base page_size) cs
apart p base [] page free d = tt
apart p base (c ∷ cs) page ((cpage, hole_c), free) (inl lt, d) =
    (inr (omega arith), apart p base cs page free d)
apart p base (c ∷ cs) page ((cpage, hole_c), free) (inr gt, d) =
    (inl gt, apart p base cs page free d)

abbrev with_base : ℕ → Pcb → Option (ℕ × Pcb)
with_base b q = some (b, q)

paired :
    (o : Option Pcb) (f : Pcb → Option Pcb) (q : Pcb) (b : ℕ)
    → (o >>= f) ≡ some q
    → (o >>= λ x. f x >>= with_base b) ≡ with_base b q
paired none f q b e = absurd (none-ne-some q e)
paired (some x) f q b e = rw e refl

-- The rest of `ik_mmap_typed` once it has a block.
abbrev finish : ℕ → ℕ → Answers → ℕ × Pcb → Option (ℕ × Pcb)
finish size type k taken = do
  q ← extend_page_vectors_maybe taken.0 size k taken.1
  r ← set_page_range_type taken.0 size type q
  some (taken.0, r)

module _ (p : Pcb) (pinned size type : ℕ) (k : Answers) (wf : IsPcb p pinned 0)
    (whole : IsPage size) (typed : 0 < type) (da : IsPage k.dirty) (sa : IsPage k.segments)
    (fresh : IsFresh p k.block size) where
  Result : Option (ℕ × Pcb) → Type 0
  Result o = (base : ℕ) × (q : Pcb) × (o ≡ some (base, q)) × IsMapped p q base size type pinned

  from_new : Result (new_block size k p >>= finish size type k)
  unfolding Result new_block page_type
  from_new =
      let r : Pcb = record p {
        total_allocated_pages = (p.total_allocated_pages + size / page_size) % 2 ^ 32;
      } in
      let sized : size / page_size * 4096 ≡ size = omega arith in
      let counted : mmap size p.total_allocated_pages
          ≡ some ((p.total_allocated_pages + size / page_size) % 2 ^ 32) =
        rw sized at (mmap-pages (size / page_size) p.total_allocated_pages) in
      let (q, runs, m) =
        recorded r pinned k.block size type k (da, sa) (new_block-IsPcb p pinned size wf whole)
          fresh.page whole typed fresh.unused fresh.uncached in
      (
        k.block,
        q,
        rw counted (
            paired (extend_page_vectors_maybe k.block size k r)
              (set_page_range_type k.block size type) q k.block runs),
        record { kept = m.kept; page = m.page; new = m.new; typed = m.typed; others = m.others },
      )

  from_cache :
      (base : ℕ) (rest : List ℕ)
      → p.cached ≡ base ∷ rest
      → size ≡ page_size
      → Result (finish size type k (base, record p { cached = rest; uncached = p.uncached + 1 }))
  unfolding Result page_type
  from_cache base rest e one =
      let r : Pcb = record p { cached = rest; uncached = p.uncached + 1 } in
      let single : size / page_size ≡ 1 = omega arith in
      let now : IsPcb r pinned (size / page_size) =
        rw single (cached_block-IsPcb p pinned base rest e wf) in
      let free : All (IsFree p) (base ∷ rest) = rw e at wf.cached_free in
      let distinct : IsDistinct (base ∷ rest) = rw e at wf.cached_distinct in
      let unused : (i : ℕ) → i < size / page_size → page_type p (base + page_size * i) ≡ hole =
        λ i h. let here : base + page_size * i ≡ base = omega arith in rw here free.0.1 in
      let away : All (Outside base size) rest =
        rw one (apart p base rest free.0.0 free.1 distinct.0) in
      let (q, runs, m) =
        recorded r pinned base size type k (da, sa) now free.0.0 whole typed unused away in
      (
        base,
        q,
        paired (extend_page_vectors_maybe base size k r) (set_page_range_type base size type) q base
            runs,
        record { kept = m.kept; page = m.page; new = m.new; typed = m.typed; others = m.others },
      )

  from_list : (cs : List ℕ) → p.cached ≡ cs → Result (take_block size k cs p >>= finish size type k)
  unfolding take_block
  from_list [] e = from_new
  from_list (base ∷ rest) e = elim (Bool-cases (size == page_size)) [
    | inl one ↦ rw one (from_cache base rest e ((==_iff _ _).0 one))
    | inr other ↦ rw other from_new
  ]

-- In a well-formed process, for a size in whole pages, a type other than that of holes and a new
-- block of the operating system of which the process holds no page, `mmap_typed` fails no assertion
-- and returns a page-aligned block whose pages were holes and are now of the type, no other page
-- has another type than before, and the process is well formed.
pub mmap_typed-IsMapped :
    (p : Pcb) (pinned size type : ℕ) (k : Answers)
    → IsPcb p pinned 0
    → IsPage size
    → 0 < type
    → IsPage k.dirty
    → IsPage k.segments
    → IsFresh p k.block size
    → (base : ℕ) × (q : Pcb) × (mmap_typed size type k p ≡ some (base, q))
      × IsMapped p q base size type pinned
unfolding mmap_typed Result
mmap_typed-IsMapped p pinned size type k wf whole typed da sa fresh =
    from_list p pinned size type k wf whole typed da sa fresh p.cached refl
