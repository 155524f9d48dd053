-- ===== src/Memory/Accounts.antt =====
-- The accounts of mapped pages, and slot vectors with holes added.
use vicare_scheme.Base.{ℕ, ◌+◌, ◌-◌, ◌*◌, ◌%◌, ◌^◌, ◌≡◌, refl, ap, some, arith, ==_refl}
use vicare_scheme.Memory.{page_size}
use vicare_scheme.Memory.Maps.{pages_for, mmap, munmap, replace_vector}
use vicare_scheme.Memory.Invariant.{IsPage}

-- Two vectors of `old` pages in place of which there are two of `new` pages.
pub replaced : ℕ → ℕ → ℕ → ℕ
replaced new old total = (total + new + 2 ^ 32 - old % 2 ^ 32) % 2 ^ 32

pub whole_pages : (n : ℕ) → pages_for (n * 4096) ≡ n
unfolding pages_for
whole_pages n = omega arith

pub mmap-pages : (n total : ℕ) → mmap (n * 4096) total ≡ some ((total + n) % 2 ^ 32)
unfolding mmap
mmap-pages n total = rw (whole_pages n, ==_refl (n * page_size)) refl

pub munmap-pages :
    (n mem total : ℕ)
    → IsPage mem
    → munmap mem (n * 4096) total ≡ some ((total + 2 ^ 32 - n % 2 ^ 32) % 2 ^ 32)
unfolding munmap
munmap-pages n mem total h = rw (whole_pages n, ==_refl (n * page_size), h) refl

pub replaced_once :
    (new old total : ℕ)
    → ((total + new) % 2 ^ 32 + 2 ^ 32 - old % 2 ^ 32) % 2 ^ 32 ≡ replaced new old total
unfolding replaced
replaced_once new old total = omega arith

pub replace_vector-account :
    (new old address total : ℕ)
    → IsPage address
    → replace_vector (new * 4096) address (old * 4096) total ≡ some (replaced new old total)
unfolding replace_vector
replace_vector-account new old address total h =
    rw (mmap-pages new total, munmap-pages old address ((total + new) % 2 ^ 32) h)
      (ap some (replaced_once new old total))

pub replaced_twice :
    (new old total held₁ held₂ : ℕ)
    → total ≡ held₁ % 2 ^ 32
    → held₁ + 2 * new ≡ held₂ + 2 * old
    → replaced new old (replaced new old total) ≡ held₂ % 2 ^ 32
unfolding replaced
replaced_twice new old total held₁ held₂ e f = omega (arith, e, f)
