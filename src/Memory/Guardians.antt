-- ===== src/Memory/Guardians.antt =====
-- A guardian pair is registered, and marks of dirty pages, keep a process well formed.
use vicare_scheme.Base.{
  ℕ, ◌+◌, ◌%◌, ◌^◌, ◌<◌, ◌≡◌, refl, ◌∙◌, inl, inr, List, [], ◌∷◌, some, arith, ◌==◌, Bool-cases,
  if◌then◌else◌, length, All,
}
use vicare_scheme.Memory.{page_size, Pcb}
use vicare_scheme.Memory.Maps.{mmap, slot_index, signal_dirt}
use vicare_scheme.Memory.Slots.{length-set_range}
use vicare_scheme.Memory.Invariant.{page_type, IsPage, held, guardian_pages, IsPcb}
use vicare_scheme.Memory.Accounts.{mmap-pages}
use vicare_scheme.Memory.Process.{
  guardian_slots, store_guardian, needs_node, store_in_first, first_nodes, register_guardian_pair,
}

abbrev Aligned : List (ℕ × List ℕ) → Type 0
Aligned nodes = All (λ n. IsPage n.0) nodes

store_guardian-Aligned :
    (address pair : ℕ) (nodes : List (ℕ × List ℕ))
    → IsPage address
    → Aligned nodes
    → Aligned (store_guardian address pair nodes)
unfolding store_guardian
store_guardian-Aligned address pair [] page h = (page, tt)
store_guardian-Aligned address pair ((node, ptrs) ∷ rest) page (here, h) =
    elim (Bool-cases (guardian_slots == length ptrs)) [
      | inl full ↦ rw full (page, (here, h))
      | inr room ↦ rw room (here, h)
    ]

length-store_guardian :
    (address pair : ℕ) (nodes : List (ℕ × List ℕ))
    → length (store_guardian address pair nodes)
      ≡ length nodes + (if needs_node nodes then 1 else 0)
unfolding store_guardian needs_node
length-store_guardian address pair [] = refl
length-store_guardian address pair ((node, ptrs) ∷ rest) =
    elim (Bool-cases (guardian_slots == length ptrs)) [
      | inl full ↦ rw full (omega arith)
      | inr room ↦ rw room (omega arith)
    ]

guardian_pages-store_in_first :
    (address pair : ℕ) (lists : List (List (ℕ × List ℕ)))
    → 0 < length lists
    → guardian_pages (store_in_first address pair lists)
      ≡ guardian_pages lists + (if needs_node (first_nodes lists) then 1 else 0)
unfolding store_in_first
guardian_pages-store_in_first address pair [] h = absurd (omega arith)
guardian_pages-store_in_first address pair (nodes ∷ older) h =
    omega (arith, length-store_guardian address pair nodes)

store_in_first-Aligned :
    (address pair : ℕ) (lists : List (List (ℕ × List ℕ)))
    → IsPage address
    → All Aligned lists
    → All Aligned (store_in_first address pair lists)
unfolding store_in_first
store_in_first-Aligned address pair [] page h = tt
store_in_first-Aligned address pair (nodes ∷ older) page (here, h) =
    (store_guardian-Aligned address pair nodes page here, h)

length-store_in_first :
    (address pair : ℕ) (lists : List (List (ℕ × List ℕ)))
    → length (store_in_first address pair lists) ≡ length lists
unfolding store_in_first
length-store_in_first address pair [] = refl
length-store_in_first address pair (nodes ∷ older) = refl

pub register_guardian_pair-IsPcb :
    (p : Pcb) (pinned pair address : ℕ)
    → IsPcb p pinned 0
    → IsPage address
    → (q : Pcb) × (register_guardian_pair pair address p ≡ some q) × IsPcb q pinned 0
unfolding register_guardian_pair held page_type
register_guardian_pair-IsPcb p pinned pair address wf page =
    let new = needs_node (first_nodes p.protected) in
    let total = (if new then (p.total_allocated_pages + 1) % 2 ^ 32 else p.total_allocated_pages) in
    let counted : (if new
          then mmap page_size p.total_allocated_pages
          else some p.total_allocated_pages)
        ≡ some total =
      elim (Bool-cases new) [
        | inl needed ↦ rw needed (mmap-pages 1 p.total_allocated_pages)
        | inr spare ↦ rw spare refl
      ] in
    let more =
      guardian_pages-store_in_first address pair p.protected (omega (arith, wf.generations)) in
    let q : Pcb = record p {
      total_allocated_pages = total;
      protected = store_in_first address pair p.protected;
    } in
    (
      q,
      rw counted refl,
      record {
        base_aligned = wf.base_aligned;
        end_aligned = wf.end_aligned;
        segments = wf.segments;
        dirty = wf.dirty;
        cache_nodes = wf.cache_nodes;
        cached_free = wf.cached_free;
        cached_distinct = wf.cached_distinct;
        dirty_address = wf.dirty_address;
        segment_address = wf.segment_address;
        cache_address = wf.cache_address;
        guardians = store_in_first-Aligned address pair p.protected page wf.guardians;
        generations = length-store_in_first address pair p.protected ∙ wf.generations;
        account = elim (Bool-cases new) [
          | inl needed ↦ rw (needed, rw needed at more) (omega (arith, wf.account))
          | inr spare ↦ rw (spare, rw spare at more) (omega (arith, wf.account))
        ];
        pinned_page = wf.pinned_page;
        pinned_used = wf.pinned_used;
      },
    )

pub signal_dirt-IsPcb :
    (p : Pcb) (pinned pointer : ℕ) → IsPcb p pinned 0 → IsPcb (signal_dirt pointer p) pinned 0
unfolding signal_dirt held page_type
signal_dirt-IsPcb p pinned pointer wf = record {
  base_aligned = wf.base_aligned;
  end_aligned = wf.end_aligned;
  segments = wf.segments;
  dirty = length-set_range (slot_index p pointer) 1 0xFFFFFFFF p.dirty_vector ∙ wf.dirty;
  cache_nodes = wf.cache_nodes;
  cached_free = wf.cached_free;
  cached_distinct = wf.cached_distinct;
  dirty_address = wf.dirty_address;
  segment_address = wf.segment_address;
  cache_address = wf.cache_address;
  guardians = wf.guardians;
  generations = wf.generations;
  account = wf.account;
  pinned_page = wf.pinned_page;
  pinned_used = wf.pinned_used;
}
