-- ===== src/Lib.antt =====
-- Vicare Scheme: exact integers, symbol tables, conversions and memory of the runtime.
--
-- The runtime in src/ is the C half of a Scheme implementation. Compiled Scheme code calls its functions
-- with tagged words. Five of its components are modelled.
--
-- Exact integers (src/ikarus-numerics.c, src/internals.h; module Numerics). An integer is a fixnum, a
-- word whose three low bits are 0, or a bignum, a reference to a block with a first word (tag, sign bit
-- and count of limbs) and 64-bit limbs. `fix`, `unfix` and the bounds of fixnums are in Numerics/Words,
-- blocks and `DEBUG_VERIFY_BIGNUM` in Numerics/Bignum. A function of the C file keeps its name less the
-- prefix: `bnbnplus` is `ikrt_bnbnplus`. It returns a value or ends the process by `ik_abort`. The
-- branches that the C code repeats are one definition each: a limb added to a magnitude or taken from it
-- (Numerics/Sum), the difference of two magnitudes (Numerics/Difference), the last steps that turn limbs
-- into an integer (Numerics/Normalize). The functions themselves are in Numerics/Addition, Subtraction,
-- Product, Comparison, Division, Modulo, Shifts and Complement; the modules below these hold the proofs.
-- `Computes n outcome` says that a run returned a well-formed integer and that it is `n`.
--
-- Symbols (src/ikarus-symbol-table.c; module Symbols). A process has a table of symbols and a table of
-- gensyms, both of 4096 buckets (`make_symbol_table`). Symbols/Text and Symbols/Hash model the comparison
-- and the hash of strings, Symbols/Objects the symbols, Symbols/Search the search of a bucket and
-- Symbols/Tables the functions that Scheme code calls. The search says where it would read a string that
-- is not there. `IsTable` is the invariant of a table, `IsPcb` that of a process.
--
-- Conversions (src/ikarus-objects.c; module Conversions). FromC has the functions that make a Scheme
-- integer from a C integer of each type (`from_uint64` is `ika_integer_from_uint64`), ToC those of the
-- other direction. Types lists the types, so that one statement speaks of all of them.
--
-- Bytevectors as text (src/ikarus-objects.c; module Bytes). Hex and Base64 have the encoders and decoders
-- `ikrt_bytevector_to_hex` and the like. A bytevector is the list of its bytes; `none` is `#f`.
--
-- Memory (src/ikarus-runtime.c, src/ikarus-collect.c; module Memory). `Pcb` has the fields of the
-- process control block that keep track of pages: the slot vectors, the page cache, the guardians and
-- the count of mapped pages. Memory/Maps has the functions that map and unmap (`mmap_typed` is
-- `ik_mmap_typed`), Memory/Process `make_pcb`, `delete_pcb` and the registration of guardians,
-- Memory/Heap the allocation of objects in the hot block. `none` is a failed assertion or a call of
-- `ik_abort`. `IsPcb` is the invariant; `Reachable` is the step relation of the operations, with what
-- they ask of the operating system (`IsFresh`) and of the callers.
--
-- The components meet in the words of Numerics/Words, which the hashes, the conversions and the sizes of
-- heap blocks use, and in the integers of Numerics/Bignum, which the conversions make and read.
--
-- Bounds: words have 64 bits and wrap around. A count of limbs is below 2 ^ 60, as the first word holds
-- it; the hypotheses `count + 1 < 2 ^ 60` leave room for a carry. Apart from `carry` there is no fuel:
-- every loop is structural on a list or a count. An offset of a shift and a length limit of a hash are
-- not negative, as the Scheme callers check. Some loops on limbs count with an `int`: the complement,
-- the shifts and the logical and are for bignums of fewer than 2 ^ 31 limbs. A block that is released
-- has at least one page, and dirt is signalled in tracked memory. A C `int` has 32 bits and a `long` and
-- a pointer have 64. An address is a number and the sum of an address and a size is exact, as addresses
-- of a process are far below 2 ^ 64. The fuel of `carry` is the quotient that the loop counts, which
-- `carry-total` shows to be enough.
--
-- Parameters: GMP's mpn functions are fields of `Mpn`, `Division` and `Mod1` with the laws of its
-- manual; Numerics/Mpn/Reference and Numerics/Division/Reference give functions that meet them. `Fresh`
-- is the uninitialised content of an allocated block, and `from_base64` takes that of a bytevector.
-- `isxdigit` of the C library is a parameter, used as documented on the numbers of `unsigned char` only.
-- The addresses that the operating system answers are `Answers` and `Start`; a failing `mmap` ends the
-- process. The collector is a parameter of `safe_alloc`.
--
-- Not modelled: the collector (a collection inside an allocation may move operands, which the code
-- registers as roots), the contents of memory pages, the Scheme stack, the logical or of bignums and the
-- logical and where an operand is negative or a fixnum, FASL, foreign functions, and the bindings of the
-- operating system.
pub mod Base
pub mod Bytes
pub mod Conversions
pub mod Memory
pub mod Numerics
pub mod Symbols
