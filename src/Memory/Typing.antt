-- ===== src/Memory/Typing.antt =====
-- What `set_page_range_type` and a block's release write to the segment vector.
use vicare_scheme.Base.{
  ℕ, ◌+◌, ◌-◌, ◌*◌, ◌/◌, ◌%◌, ◌<◌, ◌≤◌, ◌≡◌, refl, sym, ◌∙◌, ◌⊎◌, inl, inr, true, some, arith, ltb,
  leb, Bool-cases, length, get_or,
}
use vicare_scheme.Memory.{page_size, next_page, hole, Pcb}
use vicare_scheme.Memory.Maps.{set_range, slot_index, in_memory, set_page_range_type}
use vicare_scheme.Memory.Slots.{
  used, get_or-set_range_in, get_or-set_range_out, used-set_range_holes, used-set_range-hole,
  get_or-past,
}
use vicare_scheme.Memory.Invariant.{page_type, IsPage}

-- A block of tracked pages.
pub record IsTracked (p : Pcb) (base size : ℕ) : Type 0 where
  pub page : IsPage base
  pub whole : IsPage size
  pub lower : p.memory_base ≤ base
  pub upper : base + size ≤ p.memory_end
  pub start : p.memory_base % page_size ≡ 0
  pub slots : p.memory_base + page_size * length p.segment_vector ≡ p.memory_end

-- The process with another type in the slots of a block.
abbrev pub retyped : ℕ → ℕ → ℕ → Pcb → Pcb
retyped base size type p = record p {
  segment_vector = set_range (slot_index p base) (size / page_size) type p.segment_vector;
}

pub tracked-in_memory :
    {p : Pcb} {base size : ℕ} → IsTracked p base size → in_memory base size p ≡ true
unfolding in_memory next_page
tracked-in_memory t = ground (arith, t.lower, t.upper, t.whole)

-- A page in use is tracked.
pub used_tracked :
    (p : Pcb) (a : ℕ)
    → p.memory_base % page_size ≡ 0
    → p.memory_base + page_size * length p.segment_vector ≡ p.memory_end
    → 0 < page_type p a
    → (p.memory_base ≤ a) × (a < p.memory_end)
unfolding page_type
used_tracked p a start slots h = elim (Bool-cases (leb p.memory_base a)) [
  | inr below ↦ absurd (let bad = rw below at h in omega arith)
  | inl above ↦ elim (Bool-cases (ltb a p.memory_end)) [
    | inl inside ↦ (ground arith, ground arith)
    | inr past ↦
        let at_end : length p.segment_vector ≤ a / page_size - p.memory_base / page_size =
          ground arith in
        absurd (
          let bad =
            rw
              (
                above,
                get_or-past p.segment_vector (a / page_size - p.memory_base / page_size) at_end,
              )
              at h in
          omega arith)
  ]
]

module _ (p : Pcb) (base size : ℕ) (t : IsTracked p base size) (type : ℕ) where
  pub retyped-inside :
      (i : ℕ)
      → i < size / page_size
      → page_type (retyped base size type p) (base + page_size * i) ≡ type
  unfolding page_type slot_index
  retyped-inside i h =
      let above : leb p.memory_base (base + page_size * i) ≡ true = ground (arith, t.lower) in
      let index = (base + page_size * i) / page_size - p.memory_base / page_size in
      rw above (
        get_or-set_range_in (base / page_size - p.memory_base / page_size) (size / page_size) type
          p.segment_vector index (omega (arith, t.page, t.lower, t.start))
          (omega (arith, t.page, t.lower, t.start))
          (omega (arith, t.page, t.lower, t.start, t.upper, t.slots, t.whole)))

  pub retyped-outside :
      (a : ℕ)
      → IsPage a
      → (a < base) ⊎ (base + size ≤ a)
      → page_type (retyped base size type p) a ≡ page_type p a
  unfolding page_type slot_index
  retyped-outside a page h = elim (Bool-cases (leb p.memory_base a)) [
    | inr below ↦ rw below refl
    | inl above ↦ rw above (
        get_or-set_range_out (base / page_size - p.memory_base / page_size) (size / page_size) type
          p.segment_vector (a / page_size - p.memory_base / page_size)
          (elim h [
            | inl before ↦ inl (ground (arith, t.page, t.lower, t.start))
            | inr after ↦ inr (ground (arith, t.page, t.lower, t.start, t.whole))
          ]))
  ]

  -- The slot of a tracked block's page.
  pub slot_of :
      (k : ℕ)
      → slot_index p base ≤ k
      → page_type p (base + page_size * (k - slot_index p base)) ≡ get_or p.segment_vector k 0
  unfolding page_type slot_index
  slot_of k h =
      let above : leb p.memory_base
            (base + page_size * (k - (base / page_size - p.memory_base / page_size)))
          ≡ true =
        ground (arith, t.lower) in
      let index : (base + page_size * (k - (base / page_size - p.memory_base / page_size)))
              / page_size
            - p.memory_base / page_size
          ≡ k =
        omega (arith, t.page, t.lower, t.start) in
      rw (above, index) refl

  fits : slot_index p base + size / page_size ≤ length p.segment_vector
  unfolding slot_index
  fits = omega (arith, t.page, t.lower, t.start, t.upper, t.slots, t.whole)

  pub used-retyped :
      ((i : ℕ) → i < size / page_size → page_type p (base + page_size * i) ≡ hole)
      → 0 < type
      → used (set_range (slot_index p base) (size / page_size) type p.segment_vector)
        ≡ size / page_size + used p.segment_vector
  used-retyped free positive =
      used-set_range_holes (slot_index p base) (size / page_size) type p.segment_vector
        (λ k lo hi. sym (slot_of k lo) ∙ free (k - slot_index p base) (omega arith)) fits positive

  pub used-released :
      ((i : ℕ) → i < size / page_size → 0 < page_type p (base + page_size * i))
      → used (set_range (slot_index p base) (size / page_size) hole p.segment_vector)
          + size / page_size
        ≡ used p.segment_vector
  used-released taken =
      used-set_range-hole (slot_index p base) (size / page_size) p.segment_vector
        (λ k lo hi. rw (← slot_of k lo) (taken (k - slot_index p base) (omega arith)))

  pub set_page_range_type-retyped :
      set_page_range_type base size type p ≡ some (retyped base size type p)
  unfolding set_page_range_type
  set_page_range_type-retyped = rw (tracked-in_memory t) refl
