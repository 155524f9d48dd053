-- ===== src/Memory/Extension.antt =====
-- `extend_page_vectors_maybe` succeeds, tracks the new block, and changes what is known of no page.
use vicare_scheme.Base.{
  ℕ, ◌+◌, ◌-◌, ◌*◌, ◌/◌, ◌%◌, ◌^◌, ◌<◌, ◌≤◌, ◌≡◌, refl, ap, ◌∙◌, inl, inr, true, List, [], ◌∷◌,
  ◌++◌, some, arith, ltb, leb, ◌==◌, Bool-cases, if◌then◌else◌, length, get_or, replicate,
  get_or-append, length-append, length-replicate, All,
}
use vicare_scheme.Memory.{page_size, segment_size, next_page, Pcb, Answers}
use vicare_scheme.Memory.Maps.{slots_in, extend_low, extend_high, extend_page_vectors_maybe}
use vicare_scheme.Memory.Slots.{
  used, used-append, used-holes, get_or-append_right, get_or-past, get_or-holes,
}
use vicare_scheme.Memory.Invariant.{page_type, IsPage, IsFree, held, IsPcb}
use vicare_scheme.Memory.Accounts.{replaced, replace_vector-account, replaced_twice}

-- What an extension keeps and what it achieves.
pub record Extends (p q : Pcb) (base size pinned loose : ℕ) : Type 0 where
  pub kept : IsPcb q pinned loose
  pub lower : q.memory_base ≤ base
  pub upper : base + size ≤ q.memory_end
  pub same : (a : ℕ) → page_type q a ≡ page_type p a
  pub same_cache : q.cached ≡ p.cached

-- Holes before a vector, and the pages that they stand for.
holes_before :
    (d m b a : ℕ) (xs : List ℕ)
    → b ≡ m + page_size * d
    → m % page_size ≡ 0
    → (if leb m a then get_or (replicate d 0 ++ xs) (a / page_size - m / page_size) 0 else 0)
      ≡ (if leb b a then get_or xs (a / page_size - b / page_size) 0 else 0)
holes_before d m b a xs e h = elim (Bool-cases (leb b a)) [
  | inl above ↦
      let below : leb m a ≡ true = ground arith in
      let index : a / page_size - m / page_size
          ≡ length {A = ℕ} (replicate d 0) + (a / page_size - b / page_size) =
        ground (arith, length-replicate {A = ℕ} d 0) in
      rw (above, below, index)
        (get_or-append_right (replicate d 0) xs (a / page_size - b / page_size))
  | inr beneath ↦ rw beneath (elim (Bool-cases (leb m a)) [
    | inl low ↦
        let index : a / page_size - m / page_size < length {A = ℕ} (replicate d 0) =
          ground (arith, length-replicate {A = ℕ} d 0) in
        rw low (
          get_or-append (replicate d 0) xs (a / page_size - m / page_size) 0 index
          ∙ get_or-holes d (a / page_size - m / page_size))
    | inr lower ↦ rw lower refl
  ])
]

holes_behind : (d : ℕ) (xs : List ℕ) (k : ℕ) → get_or (xs ++ replicate d 0) k 0 ≡ get_or xs k 0
holes_behind d xs k = elim (Bool-cases (ltb k (length xs))) [
  | inl inside ↦ get_or-append xs (replicate d 0) k 0 (ground arith)
  | inr past ↦
      let e : length xs + (k - length xs) ≡ k = ground arith in
      rw (get_or-past xs k (ground arith), ← e)
        (get_or-append_right xs (replicate d 0) (k - length xs) ∙ get_or-holes d (k - length xs))
]

module _ (p : Pcb) (pinned loose : ℕ) (wf : IsPcb p pinned loose) (k : Answers)
    (aligned : IsPage k.dirty × IsPage k.segments) where
  IsFree-same :
      (q : Pcb)
      → ((a : ℕ) → page_type q a ≡ page_type p a)
      → (cs : List ℕ) → All (IsFree p) cs
      → All (IsFree q) cs
  IsFree-same q same [] h = tt
  IsFree-same q same (c ∷ cs) ((page, free), h) = ((page, same c ∙ free), IsFree-same q same cs h)

  -- The process after an extension, whichever way.
  abbrev extended : ℕ → ℕ → ℕ → List ℕ → List ℕ → Pcb
  extended total base end segments dirty = record p {
    total_allocated_pages = total;
    dirty_vector_base = k.dirty;
    dirty_vector = dirty;
    segment_vector_base = k.segments;
    segment_vector = segments;
    memory_base = base;
    memory_end = end;
  }

  extended-IsPcb :
      (total base end : ℕ) (segments dirty : List ℕ)
      → base % segment_size ≡ 0
      → end % segment_size ≡ 0
      → base + page_size * length segments ≡ end
      → length dirty ≡ length segments
      → ((a : ℕ) → page_type (extended total base end segments dirty) a ≡ page_type p a)
      → total ≡ (held (extended total base end segments dirty) + loose) % 2 ^ 32
      → IsPcb (extended total base end segments dirty) pinned loose
  extended-IsPcb total base end segments dirty hb he hs hd same account = record {
    base_aligned = hb;
    end_aligned = he;
    segments = hs;
    dirty = hd;
    cache_nodes = wf.cache_nodes;
    cached_free = IsFree-same (extended total base end segments dirty) same p.cached wf.cached_free;
    cached_distinct = wf.cached_distinct;
    dirty_address = aligned.0;
    segment_address = aligned.1;
    cache_address = wf.cache_address;
    guardians = wf.guardians;
    generations = wf.generations;
    account = account;
    pinned_page = wf.pinned_page;
    pinned_used = rw (same pinned) wf.pinned_used;
  }

  held_change :
      (total base end d new old : ℕ) (segments dirty : List ℕ)
      → used segments ≡ used p.segment_vector
      → (end - base) / segment_size ≡ new
      → (p.memory_end - p.memory_base) / segment_size ≡ old
      → held p + loose + 2 * new ≡ held (extended total base end segments dirty) + loose + 2 * old
  unfolding held
  held_change total base end d new old segments dirty e f g = omega (arith, e, f, g)

  extend_low-Extends :
      (base size : ℕ)
      → IsPage base
      → base < p.memory_base
      → base + size ≤ p.memory_end
      → (q : Pcb) × (extend_low base k p ≡ some q) × Extends p q base size pinned loose
  unfolding extend_low
  extend_low-Extends base size page low fits =
      let new_lo = base / segment_size in
      let hi = p.memory_end / segment_size in
      let new = hi - new_lo in
      let old = hi - p.memory_base / segment_size in
      let d = slots_in (new * 4096 - old * 4096) in
      let q =
        extended (replaced new old (replaced new old p.total_allocated_pages))
          (new_lo * segment_size) p.memory_end (replicate d 0 ++ p.segment_vector)
          (replicate d 0 ++ p.dirty_vector) in
      let runs : extend_low base k p ≡ some q =
        rw
          (
            replace_vector-account new old p.dirty_vector_base p.total_allocated_pages
                wf.dirty_address,
            replace_vector-account new old p.segment_vector_base
                (replaced new old p.total_allocated_pages) wf.segment_address,
          )
          refl in
      let slots : p.memory_base ≡ new_lo * segment_size + page_size * d =
        omega (arith, wf.base_aligned, wf.end_aligned) in
      let same : (a : ℕ) → page_type q a ≡ page_type p a = λ a.
        unfold page_type in
        holes_before d (new_lo * segment_size) p.memory_base a p.segment_vector slots
          (omega arith) in
      let length_now : (xs : List ℕ) → length (replicate d 0 ++ xs) ≡ d + length xs =
        λ xs. length-append (replicate d 0) xs ∙ omega (arith, length-replicate {A = ℕ} d 0) in
      let used_now : used (replicate d 0 ++ p.segment_vector) ≡ used p.segment_vector =
        used-append (replicate d 0) p.segment_vector ∙ omega (arith, used-holes d) in
      let account =
        replaced_twice new old p.total_allocated_pages (held p + loose) (held q + loose) wf.account
          (held_change (replaced new old (replaced new old p.total_allocated_pages))
            (new_lo * segment_size) p.memory_end d new old (replicate d 0 ++ p.segment_vector)
            (replicate d 0 ++ p.dirty_vector) used_now (omega (arith, wf.end_aligned))
            (omega (arith, wf.base_aligned, wf.end_aligned))) in
      let kept =
        extended-IsPcb (replaced new old (replaced new old p.total_allocated_pages))
          (new_lo * segment_size) p.memory_end (replicate d 0 ++ p.segment_vector)
          (replicate d 0 ++ p.dirty_vector) (omega arith) wf.end_aligned
          (omega (arith, length_now p.segment_vector, wf.segments, slots))
          (omega (arith, length_now p.segment_vector, length_now p.dirty_vector, wf.dirty)) same
          account in
      (
        q,
        runs,
        record { kept = kept; lower = omega arith; upper = fits; same = same; same_cache = refl },
      )

  extend_high-Extends :
      (base size : ℕ)
      → p.memory_base ≤ base
      → p.memory_end ≤ base + size
      → (q : Pcb) × (extend_high (base + size) k p ≡ some q) × Extends p q base size pinned loose
  unfolding extend_high
  extend_high-Extends base size low high =
      let lo = p.memory_base / segment_size in
      let new_hi = (base + size + segment_size - 1) / segment_size in
      let new = new_hi - lo in
      let old = p.memory_end / segment_size - lo in
      let d = slots_in (new * 4096 - old * 4096) in
      let total = replaced new old (replaced new old p.total_allocated_pages) in
      let segments = p.segment_vector ++ replicate d 0 in
      let dirty = p.dirty_vector ++ replicate d 0 in
      let q = extended total p.memory_base (new_hi * segment_size) segments dirty in
      let runs : extend_high (base + size) k p ≡ some q =
        rw
          (
            replace_vector-account new old p.dirty_vector_base p.total_allocated_pages
                wf.dirty_address,
            replace_vector-account new old p.segment_vector_base
                (replaced new old p.total_allocated_pages) wf.segment_address,
          )
          refl in
      let slots : p.memory_end + page_size * d ≡ new_hi * segment_size =
        omega (arith, wf.base_aligned, wf.end_aligned, wf.segments) in
      let same : (a : ℕ) → page_type q a ≡ page_type p a = λ a.
        unfold page_type in
        ap (λ x. if leb p.memory_base a then x else 0)
          (holes_behind d p.segment_vector (a / page_size - p.memory_base / page_size)) in
      let length_now : (xs : List ℕ) → length (xs ++ replicate d 0) ≡ length xs + d =
        λ xs. length-append xs (replicate d 0) ∙ omega (arith, length-replicate {A = ℕ} d 0) in
      let used_now : used segments ≡ used p.segment_vector =
        used-append p.segment_vector (replicate d 0) ∙ omega (arith, used-holes d) in
      let account =
        replaced_twice new old p.total_allocated_pages (held p + loose) (held q + loose) wf.account
          (held_change total p.memory_base (new_hi * segment_size) d new old segments dirty used_now
            (omega (arith, wf.base_aligned)) (omega (arith, wf.base_aligned, wf.end_aligned))) in
      let kept =
        extended-IsPcb total p.memory_base (new_hi * segment_size) segments dirty wf.base_aligned
          (omega arith) (omega (arith, length_now p.segment_vector, wf.segments, slots))
          (omega (arith, length_now p.segment_vector, length_now p.dirty_vector, wf.dirty)) same
          account in
      (
        q,
        runs,
        record { kept = kept; lower = low; upper = omega arith; same = same; same_cache = refl },
      )

  -- A block that does not reach past both ends of the tracked memory.
  pub extend-Extends :
      (base size : ℕ)
      → IsPage base
      → IsPage size
      → (base < p.memory_base → base + size ≤ p.memory_end)
      → (q : Pcb) × (extend_page_vectors_maybe base size k p ≡ some q)
        × Extends p q base size pinned loose
  unfolding extend_page_vectors_maybe
  extend-Extends base size page whole one_end =
      let size_ok : (size == next_page size) ≡ true = unfold next_page in ground arith in
      elim (Bool-cases (ltb base p.memory_base)) [
        | inl low ↦
            let below : base < p.memory_base = ground arith in
            rw (size_ok, low) (extend_low-Extends base size page below (one_end below))
        | inr not_low ↦ elim (Bool-cases (leb p.memory_end (base + size))) [
          | inl high ↦
              rw (size_ok, not_low, high)
                (extend_high-Extends base size (ground arith) (ground arith))
          | inr inside ↦
              rw (size_ok, not_low, inside)
                (
                  p,
                  refl,
                  record {
                    kept = wf;
                    lower = ground arith;
                    upper = ground arith;
                    same = λ a. refl;
                    same_cache = refl;
                  },
                )
        ]
      ]
