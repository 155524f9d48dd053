-- ===== src/Conversions/RoundTrip.antt =====
-- The conversions of every C type are exact, and a C integer comes back from the Scheme integer made of it.
use vicare_scheme.Base.{
  ℕ, ◌^◌, ◌<◌, ◌≡◌, ap, true, some, arith, leb, ◌==◌, ==_iff, Bool-cases, inl, inr,
}
use vicare_scheme.Base.Int.{pos}
use vicare_scheme.Numerics.Words.{word_base, fix, unfix, most_positive_fixnum}
use vicare_scheme.Numerics.Bignum.{Value, IsInteger, int_of}
use vicare_scheme.Conversions.{extend, signed_value}
use vicare_scheme.Conversions.FromC.{
  from_int, from_llong, from_uint, from_ullong, from_sint8, from_uint8, from_sint16, from_uint16,
  from_sint32, from_uint32, from_sint64, from_uint64, from_off_t, from_ssize_t, from_size_t,
  from_ptrdiff_t, from_sword, from_uword, from_machine_word,
}
use vicare_scheme.Conversions.ToC.{
  to_off_t, to_ssize_t, to_size_t, to_ptrdiff_t, to_sword, to_uword, to_machine_word,
}
use vicare_scheme.Conversions.Types.{
  Name, c_int, c_long, c_llong, c_uint, c_ulong, c_ullong, c_sint8, c_uint8, c_sint16, c_uint16,
  c_sint32, c_uint32, c_sint64, c_uint64, c_off_t, c_ssize_t, c_size_t, c_ptrdiff_t, c_sword,
  c_uword, c_machine_word, width, value, from_c, to_c,
}
use vicare_scheme.Conversions.Exact.{
  Exact, fixnum-Exact, small-Exact, from_long-Exact, from_ulong-Exact,
}
use vicare_scheme.Conversions.Reading.{
  to_int-exact, to_long-exact, to_llong-exact, to_uint-exact, to_ulong-exact, to_ullong-exact,
  to_sint8-exact, to_uint8-exact, to_sint16-exact, to_uint16-exact, to_sint32-exact,
  to_uint32-exact, to_sint64-exact, to_uint64-exact,
}

extended_8 :
    (n : ℕ)
    → n < 2 ^ 8
    → (unfix (fix (extend 8 n)) ≡ extend 8 n)
      × (extend 8 n < word_base)
      × (signed_value 64 (extend 8 n) ≡ signed_value 8 n)
unfolding extend signed_value fix unfix
extended_8 n h = ground arith

extended_16 :
    (n : ℕ)
    → n < 2 ^ 16
    → (unfix (fix (extend 16 n)) ≡ extend 16 n)
      × (extend 16 n < word_base)
      × (signed_value 64 (extend 16 n) ≡ signed_value 16 n)
unfolding extend signed_value fix unfix
extended_16 n h = ground arith

extended_32 :
    (n : ℕ)
    → n < 2 ^ 32
    → (unfix (fix (extend 32 n)) ≡ extend 32 n)
      × (extend 32 n < word_base)
      × (signed_value 64 (extend 32 n) ≡ signed_value 32 n)
unfolding extend signed_value fix unfix
extended_32 n h = ground arith

from_sint8-Exact : (n : ℕ) → n < 2 ^ 8 → Exact (signed_value 8 n) (from_sint8 n)
unfolding from_sint8
from_sint8-Exact n h =
    let (kept, word, same) = extended_8 n h in rw (← same) (fixnum-Exact (extend 8 n) kept word)

from_sint16-Exact : (n : ℕ) → n < 2 ^ 16 → Exact (signed_value 16 n) (from_sint16 n)
unfolding from_sint16
from_sint16-Exact n h =
    let (kept, word, same) = extended_16 n h in rw (← same) (fixnum-Exact (extend 16 n) kept word)

from_int-Exact : (n : ℕ) → n < 2 ^ 32 → Exact (signed_value 32 n) (from_int n)
unfolding from_int
from_int-Exact n h =
    let (kept, word, same) = extended_32 n h in rw (← same) (from_long-Exact (extend 32 n) word)

from_sint32-Exact : (n : ℕ) → n < 2 ^ 32 → Exact (signed_value 32 n) (from_sint32 n)
unfolding from_sint32
from_sint32-Exact n h =
    let (kept, word, same) = extended_32 n h in
    let e : (unfix (fix (extend 32 n)) == extend 32 n) ≡ true = (==_iff _ _).1 kept in
    rw (e, ← same) (fixnum-Exact (extend 32 n) kept word)

from_sint64-Exact : (n : ℕ) → n < word_base → Exact (signed_value 64 n) (from_sint64 n)
unfolding from_sint64 from_llong
from_sint64-Exact n h = elim (Bool-cases (unfix (fix n) == n)) [
  | inl fits ↦ rw fits (fixnum-Exact n ((==_iff _ _).0 fits) h)
  | inr over ↦ rw over (from_long-Exact n h)
]

from_uint32-Exact : (n : ℕ) → n < 2 ^ 32 → Exact (pos n) (from_uint32 n)
unfolding from_uint32
from_uint32-Exact n h =
    let e : leb n most_positive_fixnum ≡ true = ground arith in rw e (small-Exact n (omega arith))

from_uint64-Exact : (n : ℕ) → n < word_base → Exact (pos n) (from_uint64 n)
unfolding from_uint64 from_ullong
from_uint64-Exact n h = elim (Bool-cases (leb n most_positive_fixnum)) [
  | inl fits ↦ rw fits (small-Exact n (ground arith))
  | inr over ↦ rw over (from_ulong-Exact n h)
]

-- For each of the 21 C integer types and each bit pattern that the type can hold, the Scheme value
-- made from it is well formed and stands for the same integer.
pub from_c-Exact :
    (t : Name) (n : ℕ)
    → n < 2 ^ width t
    → IsInteger (from_c t n) × (int_of (from_c t n) ≡ value t n)
unfolding from_c width value from_llong from_uint from_ullong from_uint8 from_uint16 from_off_t
    from_ssize_t from_size_t from_ptrdiff_t from_sword from_uword from_machine_word
from_c-Exact c_int n h = from_int-Exact n h
from_c-Exact c_long n h = from_long-Exact n h
from_c-Exact c_llong n h = from_long-Exact n h
from_c-Exact c_uint n h = from_ulong-Exact n (omega arith)
from_c-Exact c_ulong n h = from_ulong-Exact n h
from_c-Exact c_ullong n h = from_ulong-Exact n h
from_c-Exact c_sint8 n h = from_sint8-Exact n h
from_c-Exact c_uint8 n h = small-Exact n (omega arith)
from_c-Exact c_sint16 n h = from_sint16-Exact n h
from_c-Exact c_uint16 n h = small-Exact n (omega arith)
from_c-Exact c_sint32 n h = from_sint32-Exact n h
from_c-Exact c_uint32 n h = from_uint32-Exact n h
from_c-Exact c_sint64 n h = from_sint64-Exact n h
from_c-Exact c_uint64 n h = from_uint64-Exact n h
from_c-Exact c_off_t n h = from_sint64-Exact n h
from_c-Exact c_ssize_t n h = from_sint64-Exact n h
from_c-Exact c_size_t n h = from_uint64-Exact n h
from_c-Exact c_ptrdiff_t n h = from_sint64-Exact n h
from_c-Exact c_sword n h = from_sint64-Exact n h
from_c-Exact c_uword n h = from_uint64-Exact n h
from_c-Exact c_machine_word n h = from_uint64-Exact n h

-- For each of the 21 C integer types, a well-formed Scheme integer that a bit pattern of the type
-- stands for is converted to that bit pattern, and no assertion fails.
pub to_c-exact :
    (t : Name) (n : ℕ) (v : Value)
    → n < 2 ^ width t
    → IsInteger v
    → int_of v ≡ value t n
    → to_c t v ≡ some n
unfolding to_c width value to_off_t to_ssize_t to_size_t to_ptrdiff_t to_sword to_uword
    to_machine_word
to_c-exact c_int n v h wf e = ap some (to_int-exact n h v wf e)
to_c-exact c_long n v h wf e = ap some (to_long-exact n h v wf e)
to_c-exact c_llong n v h wf e = ap some (to_llong-exact n h v wf e)
to_c-exact c_uint n v h wf e = to_uint-exact n h v wf e
to_c-exact c_ulong n v h wf e = to_ulong-exact n h v wf e
to_c-exact c_ullong n v h wf e = to_ullong-exact n h v wf e
to_c-exact c_sint8 n v h wf e = to_sint8-exact n h v wf e
to_c-exact c_uint8 n v h wf e = to_uint8-exact n h v wf e
to_c-exact c_sint16 n v h wf e = to_sint16-exact n h v wf e
to_c-exact c_uint16 n v h wf e = to_uint16-exact n h v wf e
to_c-exact c_sint32 n v h wf e = ap some (to_sint32-exact n h v wf e)
to_c-exact c_uint32 n v h wf e = ap some (to_uint32-exact n h v wf e)
to_c-exact c_sint64 n v h wf e = ap some (to_sint64-exact n h v wf e)
to_c-exact c_uint64 n v h wf e = ap some (to_uint64-exact n h v wf e)
to_c-exact c_off_t n v h wf e = ap some (to_sint64-exact n h v wf e)
to_c-exact c_ssize_t n v h wf e = ap some (to_sint64-exact n h v wf e)
to_c-exact c_size_t n v h wf e = ap some (to_uint64-exact n h v wf e)
to_c-exact c_ptrdiff_t n v h wf e = ap some (to_sint64-exact n h v wf e)
to_c-exact c_sword n v h wf e = ap some (to_sint64-exact n h v wf e)
to_c-exact c_uword n v h wf e = ap some (to_uint64-exact n h v wf e)
to_c-exact c_machine_word n v h wf e = ap some (to_uint64-exact n h v wf e)

-- For each of the 21 C integer types, a bit pattern that the type can hold is converted to a Scheme
-- integer that the function of the same type converts back to the bit pattern, and no assertion
-- fails.
pub to_c-from_c : (t : Name) (n : ℕ) → n < 2 ^ width t → to_c t (from_c t n) ≡ some n
to_c-from_c t n h = let (wf, exact) = from_c-Exact t n h in to_c-exact t n (from_c t n) h wf exact
