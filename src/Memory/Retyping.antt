-- ===== src/Memory/Retyping.antt =====
-- A block in use is given another type, as for the pages of code objects and of full stacks.
use vicare_scheme.Base.{ℕ, ◌+◌, ◌-◌, ◌*◌, ◌/◌, ◌<◌, ◌≡◌, inl, inr, arith, ltb, leb, Bool-cases}
use vicare_scheme.Memory.{page_size, Pcb}
use vicare_scheme.Memory.Maps.{slot_index}
use vicare_scheme.Memory.Slots.{used, length-set_range, used-set_range_kept}
use vicare_scheme.Memory.Invariant.{page_type, IsPage, held, IsPcb}
use vicare_scheme.Memory.Typing.{IsTracked, retyped, retyped-inside, retyped-outside, slot_of}
use vicare_scheme.Memory.Mapping.{IsFree-cache}
use vicare_scheme.Memory.Release.{cache-Outside}

module _ (p : Pcb) (pinned base size type : ℕ) (wf : IsPcb p pinned 0) (t : IsTracked p base size)
    (taken : (i : ℕ) → i < size / page_size → 0 < page_type p (base + page_size * i))
    (typed : 0 < type) where
  still_used : (a : ℕ) → IsPage a → 0 < page_type p a → 0 < page_type (retyped base size type p) a
  still_used a page busy = elim (Bool-cases (ltb a base)) [
    | inl before ↦ rw (retyped-outside p base size t type a page (inl (ground arith))) busy
    | inr not_before ↦ elim (Bool-cases (leb (base + size) a)) [
      | inl after ↦ rw (retyped-outside p base size t type a page (inr (ground arith))) busy
      | inr inside ↦
          let e : base + page_size * ((a - base) / page_size) ≡ a = ground (arith, t.page) in
          let same : page_type (retyped base size type p)
                (base + page_size * ((a - base) / page_size))
              ≡ type =
            retyped-inside p base size t type ((a - base) / page_size)
              (ground (arith, t.page, t.whole)) in
          let here : page_type (retyped base size type p) a ≡ type = rw e at same in rw here typed
    ]
  ]

  pub retyped-IsPcb : IsPcb (retyped base size type p) pinned 0
  retyped-IsPcb =
      let i = slot_index p base in
      let count = size / page_size in
      let r = retyped base size type p in
      let kept : used r.segment_vector ≡ used p.segment_vector =
        used-set_range_kept i count type p.segment_vector
          (λ k lo hi. rw (← slot_of p base size t type k lo) (taken (k - i) (omega arith))) typed in
      record {
        base_aligned = wf.base_aligned;
        end_aligned = wf.end_aligned;
        segments = rw (length-set_range i count type p.segment_vector) wf.segments;
        dirty = rw (length-set_range i count type p.segment_vector) wf.dirty;
        cache_nodes = wf.cache_nodes;
        cached_free =
            IsFree-cache p r base size (retyped-outside p base size t type) p.cached wf.cached_free
              (cache-Outside p base size t.page t.whole taken p.cached wf.cached_free);
        cached_distinct = wf.cached_distinct;
        dirty_address = wf.dirty_address;
        segment_address = wf.segment_address;
        cache_address = wf.cache_address;
        guardians = wf.guardians;
        generations = wf.generations;
        account = unfold held in omega (arith, wf.account, kept);
        pinned_page = wf.pinned_page;
        pinned_used = still_used pinned wf.pinned_page wf.pinned_used;
      }
