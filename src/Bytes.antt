-- ===== src/Bytes.antt =====
-- Bytevectors as text (src/ikarus-objects.c): hexadecimal digits and Base64. A bytevector is the list of
-- its bytes, and the answer `none` is the Scheme `#f`.
pub mod Bits
pub mod Hex
pub mod Base64
mod Tests
use vicare_scheme.Base.{ℕ, ◌<◌, Bool, true, false, Option, none, some}

-- `f`, and then `g` on its answer unless that is `#f`.
abbrev pub and_then {ℓ} : {A B : Type ℓ} → Option A → (A → Option B) → Option B
and_then none g = none
and_then (some a) g = g a

abbrev pub answers {ℓ} : {A : Type ℓ} → Option A → Bool
answers none = false
answers (some a) = true

-- The answer, or something else where it is `#f`.
abbrev pub answer_or {ℓ} : {A : Type ℓ} → Option A → A → A
answer_or none other = other
answer_or (some a) other = a

abbrev pub IsAscii : ℕ → Type 0
IsAscii c = c < 128

abbrev pub IsByte : ℕ → Type 0
IsByte b = b < 256
