-- ===== src/Memory/Reach.antt =====
-- The states of a process's memory that its operations lead to.
use vicare_scheme.Base.{ℕ, ◌+◌, ◌*◌, ◌/◌, ◌<◌, ◌≤◌, ◌≡◌, sym, ◌∙◌, Option, some}
use mathlib.Core.Option.{some-injective}
use vicare_scheme.Memory.{page_size, Pcb, Answers}
use vicare_scheme.Memory.Maps.{set_page_range_type, mmap_typed, munmap_from_segment, signal_dirt}
use vicare_scheme.Memory.Invariant.{page_type, IsPage, IsPcb, IsFresh}
use vicare_scheme.Memory.Typing.{IsTracked, retyped, set_page_range_type-retyped}
use vicare_scheme.Memory.Retyping.{retyped-IsPcb}
use vicare_scheme.Memory.Mapping.{Outside}
use vicare_scheme.Memory.Typed.{mmap_typed-IsMapped}
use vicare_scheme.Memory.Release.{munmap_from_segment-IsReleased}
use vicare_scheme.Memory.Process.{Start, make_pcb, register_guardian_pair, exit_process}
use vicare_scheme.Memory.Beginning.{IsStart, make_pcb-IsPcb}
use vicare_scheme.Memory.Guardians.{register_guardian_pair-IsPcb, signal_dirt-IsPcb}
use vicare_scheme.Memory.Exit.{exit_process-succeeds}

-- `Reachable p pinned`: some sequence of operations gives the process `p`, in which the page `pinned` is in
-- use. The operating system gives pages that the process does not hold; the callers release blocks that
-- are in use, and not the page `pinned`, which may be any page in use at that time.
pub data Reachable : Pcb → ℕ → Type 0 where
  begun : (s : Start) (p : Pcb) → IsStart s → make_pcb s ≡ some p → Reachable p s.heap
  mapped :
      (p q : Pcb) (pinned size type base : ℕ) (k : Answers)
      → Reachable p pinned
      → IsPage size
      → 0 < type
      → IsPage k.dirty
      → IsPage k.segments
      → IsFresh p k.block size
      → mmap_typed size type k p ≡ some (base, q)
      → Reachable q pinned
  released :
      (p q : Pcb) (pinned base size : ℕ)
      → Reachable p pinned
      → IsTracked p base size
      → ((i : ℕ) → i < size / page_size → 0 < page_type p (base + page_size * i))
      → Outside base size pinned
      → 0 < size
      → munmap_from_segment base size p ≡ some q
      → Reachable q pinned
  retagged :
      (p q : Pcb) (pinned base size type : ℕ)
      → Reachable p pinned
      → IsTracked p base size
      → ((i : ℕ) → i < size / page_size → 0 < page_type p (base + page_size * i))
      → 0 < type
      → set_page_range_type base size type p ≡ some q
      → Reachable q pinned
  dirtied :
      (p : Pcb) (pinned pointer : ℕ)
      → Reachable p pinned
      → p.memory_base ≤ pointer
      → pointer < p.memory_end
      → Reachable (signal_dirt pointer p) pinned
  guarded :
      (p q : Pcb) (pinned pair address : ℕ)
      → Reachable p pinned
      → IsPage address
      → register_guardian_pair pair address p ≡ some q
      → Reachable q pinned
  repinned :
      (p : Pcb) (pinned page : ℕ)
      → Reachable p pinned
      → IsPage page
      → 0 < page_type p page
      → Reachable p page

repin :
    (p : Pcb) (pinned page : ℕ)
    → IsPcb p pinned 0
    → IsPage page
    → 0 < page_type p page
    → IsPcb p page 0
repin p pinned page wf aligned busy = record {
  base_aligned = wf.base_aligned;
  end_aligned = wf.end_aligned;
  segments = wf.segments;
  dirty = wf.dirty;
  cache_nodes = wf.cache_nodes;
  cached_free = wf.cached_free;
  cached_distinct = wf.cached_distinct;
  dirty_address = wf.dirty_address;
  segment_address = wf.segment_address;
  cache_address = wf.cache_address;
  guardians = wf.guardians;
  generations = wf.generations;
  account = wf.account;
  pinned_page = aligned;
  pinned_used = busy;
}

-- The result of an operation is the one that its theorem speaks of.
same_result :
    (o : Option Pcb) (q r : Pcb) (pinned : ℕ)
    → o ≡ some q
    → IsPcb q pinned 0
    → o ≡ some r
    → IsPcb r pinned 0
same_result o q r pinned e wf f = let same : q ≡ r = some-injective q r (sym e ∙ f) in rw same at wf

same_pair :
    (o : Option (ℕ × Pcb)) (x y : ℕ × Pcb) (pinned : ℕ)
    → o ≡ some x
    → IsPcb x.1 pinned 0
    → o ≡ some y
    → IsPcb y.1 pinned 0
same_pair o x y pinned e wf f = let same : x ≡ y = some-injective x y (sym e ∙ f) in rw same at wf

begun-IsPcb : (s : Start) (p : Pcb) → IsStart s → make_pcb s ≡ some p → IsPcb p s.heap 0
begun-IsPcb s p h e = let r = make_pcb-IsPcb s h in same_result (make_pcb s) r.0 p s.heap r.1 r.2 e

mapped-IsPcb :
    (p q : Pcb) (pinned size type base : ℕ) (k : Answers)
    → IsPcb p pinned 0
    → IsPage size
    → 0 < type
    → IsPage k.dirty
    → IsPage k.segments
    → IsFresh p k.block size
    → mmap_typed size type k p ≡ some (base, q)
    → IsPcb q pinned 0
mapped-IsPcb p q pinned size type base k wf whole typed da sa fresh e =
    let r = mmap_typed-IsMapped p pinned size type k wf whole typed da sa fresh in
    same_pair (mmap_typed size type k p) (r.0, r.1) (base, q) pinned r.2 r.3.kept e

released-IsPcb :
    (p q : Pcb) (pinned base size : ℕ)
    → IsPcb p pinned 0
    → IsTracked p base size
    → ((i : ℕ) → i < size / page_size → 0 < page_type p (base + page_size * i))
    → Outside base size pinned
    → 0 < size
    → munmap_from_segment base size p ≡ some q
    → IsPcb q pinned 0
released-IsPcb p q pinned base size wf t taken out positive e =
    let r = munmap_from_segment-IsReleased p pinned base size wf t taken out positive in
    same_result (munmap_from_segment base size p) r.0 q pinned r.1 r.2.kept e

retagged-IsPcb :
    (p q : Pcb) (pinned base size type : ℕ)
    → IsPcb p pinned 0
    → IsTracked p base size
    → ((i : ℕ) → i < size / page_size → 0 < page_type p (base + page_size * i))
    → 0 < type
    → set_page_range_type base size type p ≡ some q
    → IsPcb q pinned 0
retagged-IsPcb p q pinned base size type wf t taken typed e =
    same_result (set_page_range_type base size type p) (retyped base size type p) q pinned
      (set_page_range_type-retyped p base size t type)
      (retyped-IsPcb p pinned base size type wf t taken typed) e

guarded-IsPcb :
    (p q : Pcb) (pinned pair address : ℕ)
    → IsPcb p pinned 0
    → IsPage address
    → register_guardian_pair pair address p ≡ some q
    → IsPcb q pinned 0
guarded-IsPcb p q pinned pair address wf page e =
    let r = register_guardian_pair-IsPcb p pinned pair address wf page in
    same_result (register_guardian_pair pair address p) r.0 q pinned r.1 r.2 e

-- In every state that `make_pcb`, `mmap_typed`, `munmap_from_segment`, `set_page_range_type` on
-- pages in use, `register_guardian_pair` and `signal_dirt` lead to, as `Reachable` says with its
-- conditions on the operating system and the callers, the slot vectors cover the tracked memory,
-- the cache has its 4096 nodes and distinct pages in no other use, and `total_allocated_pages` is
-- the number of pages that the process holds, modulo 2 ^ 32.
pub Reachable-IsPcb : (p : Pcb) (pinned : ℕ) → Reachable p pinned → IsPcb p pinned 0
Reachable-IsPcb p _ (begun s _ h e) = begun-IsPcb s p h e
Reachable-IsPcb q pinned (mapped p _ _ size type base k r whole typed da sa fresh e) =
    mapped-IsPcb p q pinned size type base k (Reachable-IsPcb p pinned r) whole typed da sa fresh e
Reachable-IsPcb q pinned (released p _ _ base size r t taken out positive e) =
    released-IsPcb p q pinned base size (Reachable-IsPcb p pinned r) t taken out positive e
Reachable-IsPcb q pinned (retagged p _ _ base size type r t taken typed e) =
    retagged-IsPcb p q pinned base size type (Reachable-IsPcb p pinned r) t taken typed e
Reachable-IsPcb _ pinned (dirtied p _ pointer r low high) =
    signal_dirt-IsPcb p pinned pointer (Reachable-IsPcb p pinned r)
Reachable-IsPcb q pinned (guarded p _ _ pair address r page e) =
    guarded-IsPcb p q pinned pair address (Reachable-IsPcb p pinned r) page e
Reachable-IsPcb p page (repinned _ pinned _ r aligned busy) =
    repin p pinned page (Reachable-IsPcb p pinned r) aligned busy

-- From every state that is `Reachable`, `exit_process` succeeds: `delete_pcb` gives back every
-- page, its assertions hold, and `total_allocated_pages` is then 0, as `ikrt_exit` asserts.
pub exit_process-Reachable : (p : Pcb) (pinned : ℕ) → Reachable p pinned → exit_process p ≡ some tt
exit_process-Reachable p pinned r = exit_process-succeeds p pinned (Reachable-IsPcb p pinned r)
