-- ===== src/Memory/Release.antt =====
-- `ik_munmap_from_segment` never fails an assertion, and gives a block back to the cache or the system.
use vicare_scheme.Base.{
  ℕ, zero, suc, ◌+◌, ◌-◌, ◌*◌, ◌/◌, ◌%◌, ◌^◌, ◌<◌, ◌≡◌, refl, ap, ◌∙◌, inl, inr, List, [], ◌∷◌,
  true, false, some, arith, ltb, leb, ◌==◌, Bool-cases, if◌then◌else◌, length, All,
}
use vicare_scheme.Memory.{page_size, hole, Pcb}
use vicare_scheme.Memory.Maps.{
  munmap, set_range, slot_index, one_page_less, fill_cache, munmap_from_segment,
}
use vicare_scheme.Memory.Slots.{length-set_range, no_holes-intro}
use vicare_scheme.Memory.Invariant.{page_type, IsPage, IsFree, Differs, IsDistinct, held, IsPcb}
use vicare_scheme.Memory.Accounts.{munmap-pages}
use vicare_scheme.Memory.Typing.{
  IsTracked, retyped, retyped-inside, retyped-outside, used-released, slot_of, tracked-in_memory,
}
use vicare_scheme.Memory.Mapping.{Outside, IsFree-cache}

-- The loop on a number of pages, which stops at once where there is none.
fill_pages : ℕ → ℕ → ℕ → List ℕ → List ℕ × ℕ × ℕ × ℕ
fill_pages zero base count cached = (cached, zero, base, count)
fill_pages (suc nodes) base zero cached = (cached, suc nodes, base, zero)
fill_pages (suc nodes) base (suc count) cached =
    fill_pages nodes (base + page_size) count (base ∷ cached)

-- What is left of a block, in bytes.
abbrev in_bytes : List ℕ × ℕ × ℕ × ℕ → List ℕ × ℕ × ℕ × ℕ
in_bytes out = (out.0, out.1, out.2, out.3 * page_size)

none_left :
    (nodes base : ℕ) (cached : List ℕ) → fill_pages nodes base 0 cached ≡ (cached, nodes, base, 0)
unfolding fill_pages
none_left zero base cached = refl
none_left (suc nodes) base cached = refl

-- On a block that is not empty the two loops do the same.
fill_cache-pages :
    (nodes base count : ℕ) (cached : List ℕ)
    → fill_cache nodes base (suc count * page_size) cached
      ≡ in_bytes (fill_pages nodes base (suc count) cached)
unfolding fill_cache fill_pages one_page_less
fill_cache-pages zero base count cached = refl
fill_cache-pages (suc nodes) base zero cached =
    rw (none_left nodes (base + page_size) (base ∷ cached)) refl
fill_cache-pages (suc nodes) base (suc count) cached =
    let larger : ltb (suc (suc count) * page_size) page_size ≡ false = ground arith in
    let left : suc (suc count) * page_size - page_size ≡ suc count * page_size = omega arith in
    let some_left : (suc count * page_size == 0) ≡ false = ground arith in
    rw (larger, left, some_left) (fill_cache-pages nodes (base + page_size) count (base ∷ cached))

filled_block :
    (nodes base count size : ℕ) (cached : List ℕ)
    → count * page_size ≡ size
    → 0 < size
    → fill_cache nodes base size cached ≡ in_bytes (fill_pages nodes base count cached)
filled_block nodes base zero size cached e positive = absurd (omega arith)
filled_block nodes base (suc count) size cached e positive =
    rw (← e) (fill_cache-pages nodes base count cached)

-- What the loop does with the free nodes and the pages of a block.
record Fills (p : Pcb) (nodes base count : ℕ) (cached : List ℕ) (out : List ℕ × ℕ × ℕ × ℕ)
    : Type 0 where
  kept_nodes : length out.0 + out.1 ≡ length cached + nodes
  kept_pages : length out.0 + out.3 ≡ length cached + count
  rest : IsPage out.2
  free : All (IsFree p) out.0
  distinct : IsDistinct out.0

fill_pages-Fills :
    (p : Pcb) (nodes base count : ℕ) (cached : List ℕ)
    → IsPage base
    → All (IsFree p) cached
    → IsDistinct cached
    → ((i : ℕ) → i < count → page_type p (base + page_size * i) ≡ hole)
    → All (Outside base (count * page_size)) cached
    → Fills p nodes base count cached (fill_pages nodes base count cached)
unfolding fill_pages
fill_pages-Fills p zero base count cached page free distinct holes out = record {
  kept_nodes = refl;
  kept_pages = refl;
  rest = page;
  free = free;
  distinct = distinct;
}
fill_pages-Fills p (suc nodes) base zero cached page free distinct holes out = record {
  kept_nodes = refl;
  kept_pages = refl;
  rest = page;
  free = free;
  distinct = distinct;
}
fill_pages-Fills p (suc nodes) base (suc count) cached page free distinct holes out =
    let first : page_type p base ≡ hole =
      ap (page_type p) (omega arith) ∙ holes zero (omega arith) in
    let later : (i : ℕ) → i < count → page_type p (base + page_size + page_size * i) ≡ hole =
      λ i h. ap (page_type p) (omega arith) ∙ holes (suc i) (omega arith) in
    let f =
      fill_pages-Fills p nodes (base + page_size) count (base ∷ cached) (omega arith)
        ((page, first), free) (differing base count cached out, distinct) later
        (inl (omega arith), narrower base count cached out) in
    record {
      kept_nodes = omega (arith, f.kept_nodes);
      kept_pages = omega (arith, f.kept_pages);
      rest = f.rest;
      free = f.free;
      distinct = f.distinct;
    }
  where
    differing :
        (base count : ℕ) (cs : List ℕ)
        → All (Outside base (suc count * page_size)) cs
        → All (Differs base) cs
    differing base count [] o = tt
    differing base count (c ∷ cs) (inl lt, o) = (inr lt, differing base count cs o)
    differing base count (c ∷ cs) (inr ge, o) = (inl (omega arith), differing base count cs o)

    narrower :
        (base count : ℕ) (cs : List ℕ)
        → All (Outside base (suc count * page_size)) cs
        → All (Outside (base + page_size) (count * page_size)) cs
    narrower base count [] o = tt
    narrower base count (c ∷ cs) (inl lt, o) = (inl (omega arith), narrower base count cs o)
    narrower base count (c ∷ cs) (inr ge, o) = (inr (omega arith), narrower base count cs o)

-- The cached pages are no pages of a block in use.
pub cache-Outside :
    (p : Pcb) (base size : ℕ)
    → IsPage base
    → IsPage size
    → ((i : ℕ) → i < size / page_size → 0 < page_type p (base + page_size * i))
    → (cs : List ℕ) → All (IsFree p) cs
    → All (Outside base size) cs
cache-Outside p base size page whole taken [] free = tt
cache-Outside p base size page whole taken (c ∷ cs) ((cpage, chole), free) =
    (one, cache-Outside p base size page whole taken cs free)
  where
    one : Outside base size c
    one = elim (Bool-cases (ltb c base)) [
      | inl before ↦ inl (ground arith)
      | inr not_before ↦ elim (Bool-cases (leb (base + size) c)) [
        | inl after ↦ inr (ground arith)
        | inr inside ↦
            let e : base + page_size * ((c - base) / page_size) ≡ c = ground arith in
            let busy : 0 < page_type p (base + page_size * ((c - base) / page_size)) =
              taken ((c - base) / page_size) (ground arith) in
            absurd (let bad = rw (e, chole) at busy in omega arith)
      ]
    ]

-- The process `q` has given up a block that `p` had in use; all else is as in `p`.
pub record IsReleased (p q : Pcb) (base size pinned : ℕ) : Type 0 where
  pub kept : IsPcb q pinned 0
  pub holes : (i : ℕ) → i < size / page_size → page_type q (base + page_size * i) ≡ hole
  pub others : (a : ℕ) → IsPage a → Outside base size a → page_type q a ≡ page_type p a

unmap_rest :
    (rest left total : ℕ)
    → IsPage rest
    → (if left * page_size == 0 then some total else munmap rest (left * page_size) total)
      ≡ some ((if left == 0 then total else (total + 2 ^ 32 - left % 2 ^ 32) % 2 ^ 32))
unmap_rest rest left total page = elim (Bool-cases (left == 0)) [
  | inl nothing ↦ let e : (left * page_size == 0) ≡ true = ground arith in rw (e, nothing) refl
  | inr some_left ↦
      let e : (left * page_size == 0) ≡ false = ground arith in
      rw (e, some_left) (munmap-pages left rest total page)
]

balance :
    (left total old new : ℕ)
    → total ≡ (old + 0) % 2 ^ 32
    → new + left ≡ old
    → (if left == 0 then total else (total + 2 ^ 32 - left % 2 ^ 32) % 2 ^ 32) ≡ (new + 0) % 2 ^ 32
balance left total old new e f = ground (arith, e, f)

module _ (p : Pcb) (pinned base size : ℕ) (wf : IsPcb p pinned 0) (t : IsTracked p base size)
    (taken : (i : ℕ) → i < size / page_size → 0 < page_type p (base + page_size * i))
    (elsewhere : Outside base size pinned) (some_page : 0 < size) where
  -- In a well-formed process, for a tracked block of at least one page, in use, that the pinned
  -- page is not in, `munmap_from_segment` fails no assertion, the pages of the block are holes
  -- afterwards, no other page has another type than before, and the process is well formed.
  pub munmap_from_segment-IsReleased :
      (q : Pcb) × (munmap_from_segment base size p ≡ some q) × IsReleased p q base size pinned
  unfolding munmap_from_segment
  munmap_from_segment-IsReleased =
      let i = slot_index p base in
      let count = size / page_size in
      let r = retyped base size hole p in
      let out = fill_pages p.uncached base count p.cached in
      let whole : count * page_size ≡ size = omega (arith, t.whole) in
      let outside = cache-Outside p base size t.page t.whole taken p.cached wf.cached_free in
      let others : (a : ℕ) → IsPage a → Outside base size a → page_type r a ≡ page_type p a =
        retyped-outside p base size t hole in
      let holes : (j : ℕ) → j < count → page_type r (base + page_size * j) ≡ hole =
        retyped-inside p base size t hole in
      let f =
        fill_pages-Fills r p.uncached base count p.cached t.page
          (IsFree-cache p r base size others p.cached wf.cached_free outside) wf.cached_distinct
          holes (rw whole outside) in
      let busy =
        no_holes-intro i count p.segment_vector
          (λ k lo hi. rw (← slot_of p base size t hole k lo) (taken (k - i) (omega arith))) in
      let total =
        (if out.3 == 0
          then p.total_allocated_pages
          else (p.total_allocated_pages + 2 ^ 32 - out.3 % 2 ^ 32) % 2 ^ 32) in
      let q : Pcb = record p {
        total_allocated_pages = total;
        segment_vector = set_range i count hole p.segment_vector;
        dirty_vector = set_range i count 0 p.dirty_vector;
        cached = out.0;
        uncached = out.1;
      } in
      let filled = filled_block p.uncached base count size p.cached whole some_page in
      let runs : munmap_from_segment base size p ≡ some q =
        rw
          (tracked-in_memory t, busy, filled, unmap_rest out.2 out.3 p.total_allocated_pages f.rest)
          refl in
      let fewer = used-released p base size t hole taken in
      let account : total ≡ (held q + 0) % 2 ^ 32 =
        balance out.3 p.total_allocated_pages (held p) (held q) wf.account
          (unfold held in omega (arith, f.kept_pages, fewer)) in
      let still : page_type r pinned ≡ page_type p pinned =
        others pinned wf.pinned_page elsewhere in
      let kept : IsPcb q pinned 0 = record {
        base_aligned = wf.base_aligned;
        end_aligned = wf.end_aligned;
        segments = rw (length-set_range i count hole p.segment_vector) wf.segments;
        dirty =
            rw
              (
                length-set_range i count hole p.segment_vector,
                length-set_range i count 0 p.dirty_vector,
              )
              wf.dirty;
        cache_nodes = f.kept_nodes ∙ wf.cache_nodes;
        cached_free = unfold page_type in f.free;
        cached_distinct = f.distinct;
        dirty_address = wf.dirty_address;
        segment_address = wf.segment_address;
        cache_address = wf.cache_address;
        guardians = wf.guardians;
        generations = wf.generations;
        account = account;
        pinned_page = wf.pinned_page;
        pinned_used = unfold page_type in (rw still wf.pinned_used);
      } in
      (
        q,
        runs,
        record {
          kept = kept;
          holes = unfold page_type in holes;
          others = unfold page_type in others;
        },
      )
