-- ===== src/Conversions/Types.antt =====
-- The C types of the conversions, so that a statement can speak of all of them at once.
use vicare_scheme.Base.{ℕ, Option, some}
use vicare_scheme.Base.Int.{ℤ, pos}
use vicare_scheme.Numerics.Bignum.{Value}
use vicare_scheme.Conversions.{signed_value}
use vicare_scheme.Conversions.FromC.{
  from_int, from_long, from_llong, from_uint, from_ulong, from_ullong, from_sint8, from_uint8,
  from_sint16, from_uint16, from_sint32, from_uint32, from_sint64, from_uint64, from_off_t,
  from_ssize_t, from_size_t, from_ptrdiff_t, from_sword, from_uword, from_machine_word,
}
use vicare_scheme.Conversions.ToC.{
  integer, to_int, to_long, to_llong, to_uint, to_ulong, to_ullong, to_sint8, to_uint8, to_sint16,
  to_uint16, to_sint32, to_uint32, to_sint64, to_uint64, to_off_t, to_ssize_t, to_size_t,
  to_ptrdiff_t, to_sword, to_uword, to_machine_word,
}

pub data Name : Type 0 where
  c_int : Name
  c_long : Name
  c_llong : Name
  c_uint : Name
  c_ulong : Name
  c_ullong : Name
  c_sint8 : Name
  c_uint8 : Name
  c_sint16 : Name
  c_uint16 : Name
  c_sint32 : Name
  c_uint32 : Name
  c_sint64 : Name
  c_uint64 : Name
  c_off_t : Name
  c_ssize_t : Name
  c_size_t : Name
  c_ptrdiff_t : Name
  c_sword : Name
  c_uword : Name
  c_machine_word : Name

unfoldable pub width : Name → ℕ
width c_int = 32
width c_long = 64
width c_llong = 64
width c_uint = 32
width c_ulong = 64
width c_ullong = 64
width c_sint8 = 8
width c_uint8 = 8
width c_sint16 = 16
width c_uint16 = 16
width c_sint32 = 32
width c_uint32 = 32
width c_sint64 = 64
width c_uint64 = 64
width c_off_t = 64
width c_ssize_t = 64
width c_size_t = 64
width c_ptrdiff_t = 64
width c_sword = 64
width c_uword = 64
width c_machine_word = 64

-- The integer that a bit pattern of the type stands for.
unfoldable pub value : Name → ℕ → ℤ
value c_int n = signed_value 32 n
value c_long n = signed_value 64 n
value c_llong n = signed_value 64 n
value c_uint n = pos n
value c_ulong n = pos n
value c_ullong n = pos n
value c_sint8 n = signed_value 8 n
value c_uint8 n = pos n
value c_sint16 n = signed_value 16 n
value c_uint16 n = pos n
value c_sint32 n = signed_value 32 n
value c_uint32 n = pos n
value c_sint64 n = signed_value 64 n
value c_uint64 n = pos n
value c_off_t n = signed_value 64 n
value c_ssize_t n = signed_value 64 n
value c_size_t n = pos n
value c_ptrdiff_t n = signed_value 64 n
value c_sword n = signed_value 64 n
value c_uword n = pos n
value c_machine_word n = pos n

unfoldable pub from_c : Name → ℕ → Value
from_c c_int n = from_int n
from_c c_long n = from_long n
from_c c_llong n = from_llong n
from_c c_uint n = from_uint n
from_c c_ulong n = from_ulong n
from_c c_ullong n = from_ullong n
from_c c_sint8 n = from_sint8 n
from_c c_uint8 n = from_uint8 n
from_c c_sint16 n = from_sint16 n
from_c c_uint16 n = from_uint16 n
from_c c_sint32 n = from_sint32 n
from_c c_uint32 n = from_uint32 n
from_c c_sint64 n = from_sint64 n
from_c c_uint64 n = from_uint64 n
from_c c_off_t n = from_off_t n
from_c c_ssize_t n = from_ssize_t n
from_c c_size_t n = from_size_t n
from_c c_ptrdiff_t n = from_ptrdiff_t n
from_c c_sword n = from_sword n
from_c c_uword n = from_uword n
from_c c_machine_word n = from_machine_word n

-- `none` where the process is ended.
unfoldable pub to_c : Name → Value → Option ℕ
to_c c_int v = some (to_int (integer v))
to_c c_long v = some (to_long (integer v))
to_c c_llong v = some (to_llong (integer v))
to_c c_uint v = to_uint (integer v)
to_c c_ulong v = to_ulong (integer v)
to_c c_ullong v = to_ullong (integer v)
to_c c_sint8 v = to_sint8 v
to_c c_uint8 v = to_uint8 v
to_c c_sint16 v = to_sint16 v
to_c c_uint16 v = to_uint16 v
to_c c_sint32 v = some (to_sint32 v)
to_c c_uint32 v = some (to_uint32 v)
to_c c_sint64 v = some (to_sint64 v)
to_c c_uint64 v = some (to_uint64 v)
to_c c_off_t v = some (to_off_t v)
to_c c_ssize_t v = some (to_ssize_t v)
to_c c_size_t v = some (to_size_t v)
to_c c_ptrdiff_t v = some (to_ptrdiff_t v)
to_c c_sword v = some (to_sword v)
to_c c_uword v = some (to_uword v)
to_c c_machine_word v = some (to_machine_word v)
