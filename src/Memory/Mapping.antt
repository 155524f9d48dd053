-- ===== src/Memory/Mapping.antt =====
-- A block that the process does not hold is recorded in the slot vectors, as the last steps of `ik_mmap_typed` do.
use vicare_scheme.Base.{
  ℕ, ◌+◌, ◌-◌, ◌*◌, ◌/◌, ◌<◌, ◌≤◌, ◌≡◌, ◌∙◌, ◌⊎◌, inl, inr, List, [], ◌∷◌, some, arith, ltb, leb,
  Bool-cases, All,
}
use vicare_scheme.Memory.{page_size, hole, Pcb, ◌>>=◌, Answers}
use vicare_scheme.Memory.Maps.{slot_index, set_page_range_type, extend_page_vectors_maybe}
use vicare_scheme.Memory.Slots.{used, length-set_range}
use vicare_scheme.Memory.Invariant.{page_type, IsPage, IsFree, held, IsPcb}
use vicare_scheme.Memory.Extension.{Extends, extend-Extends}
use vicare_scheme.Memory.Typing.{
  IsTracked, retyped, retyped-inside, retyped-outside, used-retyped, used_tracked,
  set_page_range_type-retyped,
}

abbrev pub Outside : ℕ → ℕ → ℕ → Type 0
Outside base size a = (a < base) ⊎ (base + size ≤ a)

-- The process `q` has in use, as pages of one type, a block that `p` had not; all else is as in `p`.
pub record IsMapped (p q : Pcb) (base size type pinned : ℕ) : Type 0 where
  pub kept : IsPcb q pinned 0
  pub page : IsPage base
  pub new : (i : ℕ) → i < size / page_size → page_type p (base + page_size * i) ≡ hole
  pub typed : (i : ℕ) → i < size / page_size → page_type q (base + page_size * i) ≡ type
  pub others : (a : ℕ) → IsPage a → Outside base size a → page_type q a ≡ page_type p a

pub used-Outside :
    (p : Pcb) (base size a : ℕ)
    → IsPage base
    → IsPage size
    → IsPage a
    → 0 < page_type p a
    → ((i : ℕ) → i < size / page_size → page_type p (base + page_size * i) ≡ hole)
    → Outside base size a
used-Outside p base size a page whole apage used unused = elim (Bool-cases (ltb a base)) [
  | inl before ↦ inl (ground arith)
  | inr not_before ↦ elim (Bool-cases (leb (base + size) a)) [
    | inl after ↦ inr (ground arith)
    | inr inside ↦
        let e : base + page_size * ((a - base) / page_size) ≡ a = ground arith in
        let free : page_type p (base + page_size * ((a - base) / page_size)) ≡ hole =
          unused ((a - base) / page_size) (ground arith) in
        absurd (let bad = rw e at free in omega arith)
  ]
]

pub IsFree-cache :
    (p q : Pcb) (base size : ℕ)
    → ((a : ℕ) → IsPage a → Outside base size a → page_type q a ≡ page_type p a)
    → (cs : List ℕ) → All (IsFree p) cs
    → All (Outside base size) cs
    → All (IsFree q) cs
IsFree-cache p q base size others [] h o = tt
IsFree-cache p q base size others (c ∷ cs) ((page, free), h) (out, o) =
    ((page, others c page out ∙ free), IsFree-cache p q base size others cs h o)

-- The last two steps, for a block that is mapped and not yet referred to.
module _ (p : Pcb) (pinned base size type : ℕ) (k : Answers)
    (aligned : IsPage k.dirty × IsPage k.segments) (wf : IsPcb p pinned (size / page_size))
    (page : IsPage base) (whole : IsPage size) (typed : 0 < type)
    (unused : (i : ℕ) → i < size / page_size → page_type p (base + page_size * i) ≡ hole)
    (uncached : All (Outside base size) p.cached) where
  one_end : base < p.memory_base → base + size ≤ p.memory_end
  one_end low =
      let (above, below) =
        used_tracked p pinned (omega (arith, wf.base_aligned)) wf.segments wf.pinned_used in
      elim (used-Outside p base size pinned page whole wf.pinned_page wf.pinned_used unused) [
        | inl before ↦ absurd (omega arith)
        | inr after ↦ omega arith
      ]

  extended-IsTracked :
      (q : Pcb) → Extends p q base size pinned (size / page_size) → IsTracked q base size
  extended-IsTracked q e = record {
    page = page;
    whole = whole;
    lower = e.lower;
    upper = e.upper;
    start = omega (arith, e.kept.base_aligned);
    slots = e.kept.segments;
  }

  retyped-IsMapped :
      (q : Pcb)
      → Extends p q base size pinned (size / page_size)
      → IsMapped p (retyped base size type q) base size type pinned
  retyped-IsMapped q e =
      let t = extended-IsTracked q e in
      let r = retyped base size type q in
      let unused_now : (i : ℕ) → i < size / page_size → page_type q (base + page_size * i) ≡ hole =
        λ i h. e.same (base + page_size * i) ∙ unused i h in
      let outside : (a : ℕ) → IsPage a → Outside base size a → page_type r a ≡ page_type q a =
        retyped-outside q base size t type in
      let pinned_out =
        used-Outside q base size pinned page whole e.kept.pinned_page e.kept.pinned_used
          unused_now in
      let count : used r.segment_vector ≡ size / page_size + used q.segment_vector =
        used-retyped q base size t type unused_now typed in
      record {
        kept = record {
          base_aligned = e.kept.base_aligned;
          end_aligned = e.kept.end_aligned;
          segments =
              rw (length-set_range (slot_index q base) (size / page_size) type q.segment_vector)
                e.kept.segments;
          dirty =
              rw (length-set_range (slot_index q base) (size / page_size) type q.segment_vector)
                e.kept.dirty;
          cache_nodes = e.kept.cache_nodes;
          cached_free =
              IsFree-cache q r base size outside q.cached e.kept.cached_free
                (rw e.same_cache uncached);
          cached_distinct = e.kept.cached_distinct;
          dirty_address = e.kept.dirty_address;
          segment_address = e.kept.segment_address;
          cache_address = e.kept.cache_address;
          guardians = e.kept.guardians;
          generations = e.kept.generations;
          account = unfold held in omega (arith, e.kept.account, count);
          pinned_page = e.kept.pinned_page;
          pinned_used = rw (outside pinned e.kept.pinned_page pinned_out) e.kept.pinned_used;
        };
        page = page;
        new = unused;
        typed = retyped-inside q base size t type;
        others = λ a h o. outside a h o ∙ e.same a;
      }

  pub recorded :
      (q : Pcb) × ((extend_page_vectors_maybe base size k p >>= set_page_range_type base size type)
        ≡ some q)
      × IsMapped p q base size type pinned
  recorded =
      let (q, runs, e) =
        extend-Extends p pinned (size / page_size) wf k aligned base size page whole one_end in
      (
        retyped base size type q,
        rw runs (set_page_range_type-retyped q base size (extended-IsTracked q e) type),
        retyped-IsMapped q e,
      )
