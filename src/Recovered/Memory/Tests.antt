-- ===== src/Recovered/Memory/Tests.antt =====
-- Tests of recovered/libc/src/string.c: "ab" at address 10, and other bytes elsewhere.
use spirit_fox_os.Prelude.{ℕ, zero, suc, ◌+◌, ◌<◌, ◌≡◌, ◌≢◌, inr, ◌==◌, if◌then◌else◌, arith}
use spirit_fox_os.Recovered.Memory.{Memory, memmove, strncpy}
use spirit_fox_os.Recovered.Memory.Blocks.{moved, memmove-moved}
use spirit_fox_os.Recovered.Memory.Strings.{strncpy_overrun}

abbrev some_memory : Memory
some_memory a = if a == 10 then 97 else (if a == 11 then 98 else (if a == 12 then 0 else 255))

two_letters : (i : ℕ) → i < 2 → some_memory (10 + i) ≢ 0
two_letters zero lt q = absurd (omega arith)
two_letters (suc zero) lt q = absurd (omega arith)
two_letters (suc (suc i)) lt q = absurd (omega arith)

memmove-moved_example : memmove some_memory 11 10 3 12 ≡ moved some_memory 11 10 3 12
memmove-moved_example = memmove-moved some_memory 11 10 3 12

strncpy_overrun_example : strncpy some_memory 100 10 2 (100 + 2 + 7) ≡ 0
strncpy_overrun_example =
    strncpy_overrun some_memory 100 10 2 7 (inr (omega arith)) two_letters (omega arith)
