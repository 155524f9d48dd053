-- ===== src/Memory/Exit.antt =====
-- `ik_delete_pcb` gives every page back, so the assertion of `ikrt_exit` holds.
use vicare_scheme.Base.{
  ℕ, suc, ◌+◌, ◌-◌, ◌*◌, ◌/◌, ◌%◌, ◌^◌, ◌≡◌, refl, ap, ◌∙◌, inl, inr, List, [], ◌∷◌, some, arith,
  ◌==◌, Bool-cases, length, All,
}
use vicare_scheme.Memory.{page_size, segment_size, hole, Pcb}
use vicare_scheme.Memory.Maps.{munmap}
use vicare_scheme.Memory.Slots.{used}
use vicare_scheme.Memory.Invariant.{IsPage, IsFree, held, guardian_pages, IsPcb}
use vicare_scheme.Memory.Accounts.{munmap-pages}
use vicare_scheme.Memory.Process.{
  release_cached, release_nodes, release_guardians, release_used, delete_pcb, exit_process,
}

-- The accounts when `n` of `n + rest` pages are given back.
step :
    (n mem total rest : ℕ)
    → IsPage mem
    → total ≡ (n + rest) % 2 ^ 32
    → munmap mem (n * 4096) total ≡ some (rest % 2 ^ 32)
step n mem total rest page e = munmap-pages n mem total page ∙ ap some (omega (arith, e))

one_page :
    (mem total rest : ℕ)
    → IsPage mem
    → total ≡ (1 + rest) % 2 ^ 32
    → munmap mem page_size total ≡ some (rest % 2 ^ 32)
one_page mem total rest page e = step 1 mem total rest page e

release_cached-account :
    (p : Pcb) (cs : List ℕ) (total rest : ℕ)
    → All (IsFree p) cs
    → total ≡ (length cs + rest) % 2 ^ 32
    → release_cached cs total ≡ some (rest % 2 ^ 32)
unfolding release_cached
release_cached-account p [] total rest h e = ap some (omega (arith, e))
release_cached-account p (c ∷ cs) total rest ((page, free), h) e =
    rw (one_page c total (length cs + rest) page (omega (arith, e)))
      (release_cached-account p cs ((length cs + rest) % 2 ^ 32) rest h refl)

release_nodes-account :
    (nodes : List (ℕ × List ℕ)) (total rest : ℕ)
    → All (λ n. IsPage n.0) nodes
    → total ≡ (length nodes + rest) % 2 ^ 32
    → release_nodes nodes total ≡ some (rest % 2 ^ 32)
unfolding release_nodes
release_nodes-account [] total rest h e = ap some (omega (arith, e))
release_nodes-account (n ∷ nodes) total rest (page, h) e =
    rw (one_page n.0 total (length nodes + rest) page (omega (arith, e)))
      (release_nodes-account nodes ((length nodes + rest) % 2 ^ 32) rest h refl)

release_guardians-account :
    (lists : List (List (ℕ × List ℕ))) (total rest : ℕ)
    → All (All (λ n. IsPage n.0)) lists
    → total ≡ (guardian_pages lists + rest) % 2 ^ 32
    → release_guardians lists total ≡ some (rest % 2 ^ 32)
unfolding release_guardians
release_guardians-account [] total rest h e = ap some (omega (arith, e))
release_guardians-account (nodes ∷ lists) total rest (here, h) e =
    rw (release_nodes-account nodes total (guardian_pages lists + rest) here (omega (arith, e)))
      (release_guardians-account lists ((guardian_pages lists + rest) % 2 ^ 32) rest h refl)

release_used-account :
    (page : ℕ) (types : List ℕ) (total rest : ℕ)
    → total ≡ (used types + rest) % 2 ^ 32
    → release_used page types total ≡ some (rest % 2 ^ 32)
unfolding release_used used
release_used-account page [] total rest e = ap some (omega (arith, e))
release_used-account page (type ∷ types) total rest e = elim (Bool-cases (type == hole)) [
  | inl empty ↦ rw empty (
      release_used-account (suc page) types total rest
        (rw empty at e ∙ ap (λ n. n % 2 ^ 32) (omega arith)))
  | inr busy ↦
      let f : total ≡ (1 + (used types + rest)) % 2 ^ 32 =
        rw busy at e ∙ ap (λ n. n % 2 ^ 32) (omega arith) in
      rw (busy, one_page (page * page_size) total (used types + rest) (omega arith) f)
        (release_used-account (suc page) types ((used types + rest) % 2 ^ 32) rest refl)
]

pub delete_pcb-account : (p : Pcb) (pinned : ℕ) → IsPcb p pinned 0 → delete_pcb p ≡ some 0
unfolding delete_pcb
delete_pcb-account p pinned wf =
    let v = p.memory_end / segment_size - p.memory_base / segment_size in
    let g = guardian_pages p.protected in
    let u = used p.segment_vector in
    let n = length p.cached in
    let all : p.total_allocated_pages ≡ (n + (16 + (g + (u + (v + v))))) % 2 ^ 32 =
      unfold held in omega (arith, wf.account, wf.base_aligned, wf.end_aligned) in
    rw
      (
        release_cached-account p p.cached p.total_allocated_pages (16 + (g + (u + (v + v))))
            wf.cached_free all,
        step 16 p.cached_pages_base ((16 + (g + (u + (v + v)))) % 2 ^ 32) (g + (u + (v + v)))
            wf.cache_address refl,
        release_guardians-account p.protected ((g + (u + (v + v))) % 2 ^ 32) (u + (v + v))
            wf.guardians refl,
        release_used-account (p.memory_base / page_size) p.segment_vector ((u + (v + v)) % 2 ^ 32)
            (v + v) refl,
        step v p.dirty_vector_base ((v + v) % 2 ^ 32) v wf.dirty_address refl,
      )
      (step v p.segment_vector_base (v % 2 ^ 32) 0 wf.segment_address (omega arith))

-- After `ik_delete_pcb` no page is left.
pub exit_process-succeeds : (p : Pcb) (pinned : ℕ) → IsPcb p pinned 0 → exit_process p ≡ some tt
unfolding exit_process
exit_process-succeeds p pinned wf = rw (delete_pcb-account p pinned wf) refl
