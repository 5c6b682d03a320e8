-- ===== src/Recovered/Memory.antt =====
-- recovered/libc/src/string.c: the functions on blocks of memory. An address is a number, and the
-- memory a function from addresses to bytes; no block goes round the end of the address space.
pub mod Blocks
pub mod Strings
mod Tests
use spirit_fox_os.Prelude.{
  ℕ, zero, suc, ◌+◌, ◌-◌, ◌%◌, ◌^◌, Bool, true, false, ltb, ◌==◌, if◌then◌else◌, ℤ, pos, negsuc,
  Option, none, some,
}

abbrev pub Memory : Type 0
Memory = ℕ → ℕ

-- *p = b
abbrev pub store : Memory → ℕ → ℕ → Memory
store m p b q = if q == p then b else m q

-- The loops are recursions on the bytes that are left.
unfoldable pub memset : Memory → ℕ → ℕ → ℕ → Memory
memset m p c zero = m
memset m p c (suc n) = memset (store m p (c % 256)) (p + 1) c n

unfoldable pub memcpy : Memory → ℕ → ℕ → ℕ → Memory
memcpy m d s zero = m
memcpy m d s (suc n) = memcpy (store m d (m s)) (d + 1) (s + 1) n

-- The loop of memmove that goes down: the blocks start at `d` and `s`.
unfoldable pub copy_down : Memory → ℕ → ℕ → ℕ → Memory
copy_down m d s zero = m
copy_down m d s (suc n) = copy_down (store m (d + n) (m (s + n))) d s n

unfoldable pub memmove : Memory → ℕ → ℕ → ℕ → Memory
memmove m d s n = if ltb d s then memcpy m d s n else copy_down m d s n

-- a - b, for bytes
abbrev pub byte_difference : ℕ → ℕ → ℤ
byte_difference a b = if ltb a b then negsuc (b - a - 1) else pos (a - b)

unfoldable pub memcmp : Memory → ℕ → ℕ → ℕ → ℤ
memcmp m p q zero = pos 0
memcmp m p q (suc n) =
    let rest = memcmp m (p + 1) (q + 1) n in
    if m p == m q then rest else byte_difference (m p) (m q)

-- `none` is a null pointer.
unfoldable pub memchr : Memory → ℕ → ℕ → ℕ → Option ℕ
memchr m p c zero = none
memchr m p c (suc n) = let rest = memchr m (p + 1) c n in if m p == c % 256 then some p else rest

-- The loop of strncpy that copies: the memory, the next address and what `n` is after the loop. When
-- `n` is used up, the test makes it SIZE_MAX.
unfoldable pub copy_string : Memory → ℕ → ℕ → ℕ → Memory × ℕ × ℕ
copy_string m d s zero = (m, d, 2 ^ 64 - 1)
copy_string m d s (suc n) =
    let rest = copy_string (store m d (m s)) (d + 1) (s + 1) n in
    if m s == 0 then (store m d (m s), d + 1, n) else rest

unfoldable pub strncpy : Memory → ℕ → ℕ → ℕ → Memory
strncpy m dest src n = let (m', d, left) = copy_string m dest src n in memset m' d 0 left
