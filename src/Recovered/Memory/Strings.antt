-- ===== src/Recovered/Memory/Strings.antt =====
-- strncpy of recovered/libc/src/string.c, for a string that ends in time and for one that does not.
use spirit_fox_os.Prelude.{
  ℕ, zero, suc, ◌+◌, ◌-◌, ◌^◌, ◌<◌, ◌≤◌, ◌≡◌, ◌≢◌, refl, sym, ◌∙◌, true, false, ltb, ◌==◌, arith,
  inl, inr, ◌⊎◌,
}
use spirit_fox_os.Recovered.Memory.{Memory, store, memcpy, copy_string, strncpy}
use spirit_fox_os.Recovered.Memory.Blocks.{moved, memcpy-moved, memset-inside, memset-outside}

-- The copy does not write what it has not read yet.
abbrev pub IsApart : ℕ → ℕ → ℕ → Type 0
IsApart d s n = (d < s) ⊎ (s + n ≤ d)

later_byte :
    (m : Memory) (d s n i : ℕ)
    → IsApart d s (suc n)
    → i < n
    → store m d (m s) (s + 1 + i) ≡ m (s + suc i)
later_byte m d s n i apart lt =
    let free : (s + 1 + i == d) ≡ false = ground (arith, apart) in
    let a : s + 1 + i ≡ s + suc i = omega arith in rw (free, a) refl

first_byte : (m : Memory) (s : ℕ) → m (s + 0) ≡ m s
first_byte m s = let a : s + 0 ≡ s = omega arith in rw a refl

-- No zero byte among the first `n`.
copy_string_full :
    (n : ℕ) (m : Memory) (d s : ℕ)
    → IsApart d s n
    → ((i : ℕ) → i < n → m (s + i) ≢ 0)
    → copy_string m d s n ≡ (memcpy m d s n, d + n, 2 ^ 64 - 1)
unfolding copy_string memcpy
copy_string_full zero m d s apart h = let a : d + 0 ≡ d = omega arith in rw a refl
copy_string_full (suc n) m d s apart h =
    let go : (m s == 0) ≡ false = ground (arith, h 0 (omega arith), first_byte m s) in
    let a : d + 1 + n ≡ d + suc n = omega arith in
    rw go (
      copy_string_full n (store m d (m s)) (d + 1) (s + 1) (ground (arith, apart))
        (λ i lt q. h (suc i) (omega arith) (sym (later_byte m d s n i apart lt) ∙ q))
      ∙ rw a refl)

-- The first zero byte is the one at `k`.
copy_string_short :
    (k n : ℕ) (m : Memory) (d s : ℕ)
    → IsApart d s n
    → k < n
    → ((i : ℕ) → i < k → m (s + i) ≢ 0)
    → m (s + k) ≡ 0
    → copy_string m d s n ≡ (memcpy m d s (suc k), d + suc k, n - suc k)
unfolding copy_string memcpy
copy_string_short k zero m d s apart lt h z = absurd (omega arith)
copy_string_short zero (suc n) m d s apart lt h z =
    let end : (m s == 0) ≡ true = ground (arith, z, first_byte m s) in
    let a : suc n - 1 ≡ n = omega arith in rw (end, a) refl
copy_string_short (suc k) (suc n) m d s apart lt h z =
    let go : (m s == 0) ≡ false = ground (arith, h 0 (omega arith), first_byte m s) in
    let a : d + 1 + suc k ≡ d + suc (suc k) = omega arith in
    let b : suc n - suc (suc k) ≡ n - suc k = omega arith in
    rw (go, b)
      (copy_string_short k n (store m d (m s)) (d + 1) (s + 1) (ground (arith, apart)) (omega arith)
          (λ i lt' q. h (suc i) (omega arith) (sym (later_byte m d s n i apart (omega arith)) ∙ q))
          (later_byte m d s n k apart (omega arith) ∙ z)
        ∙ rw a refl)

-- If the first zero byte of the source is at `k`, below `n`, and the copy does not overwrite what it has
-- yet to read, strncpy writes the first `k + 1` bytes of the source and then zeros, up to `n` bytes in
-- all, and changes no other byte.
pub strncpy_padded :
    (m : Memory) (d s k n : ℕ)
    → IsApart d s n
    → k < n
    → ((i : ℕ) → i < k → m (s + i) ≢ 0)
    → m (s + k) ≡ 0
    → ((j : ℕ) → j ≤ k → strncpy m d s n (d + j) ≡ m (s + j))
      × ((j : ℕ) → k < j → j < n → strncpy m d s n (d + j) ≡ 0)
      × ((q : ℕ) → (q < d) ⊎ (d + n ≤ q) → strncpy m d s n q ≡ m q)
unfolding strncpy moved
strncpy_padded m d s k n apart lt h z =
    let e = copy_string_short k n m d s apart lt h z in
    let near : IsApart d s (suc k) = ground (arith, apart) in
    let m' = memcpy m d s (suc k) in
    (
      (λ j le.
          let t : ltb (d + j) d ≡ false = ground arith in
          let u : ltb (d + j) (d + suc k) ≡ true = ground arith in
          let a : s + (d + j - d) ≡ s + j = omega arith in
          rw (strncpy, e)
            (memset-outside (n - suc k) m' (d + suc k) 0 (d + j) (inl (omega arith))
              ∙ memcpy-moved (suc k) m d s (d + j) near
              ∙ rw (t, u, a) refl)),
      (λ j lo hi.
          rw (strncpy, e)
            (memset-inside (n - suc k) m' (d + suc k) 0 (d + j) (omega arith) (omega arith))),
      (λ q out.
          rw (strncpy, e)
            (memset-outside (n - suc k) m' (d + suc k) 0 q (ground (arith, out))
              ∙ memcpy-moved (suc k) m d s q near
              ∙ elim out [
                | inl before ↦ let t : ltb q d ≡ true = ground (arith, before) in rw t refl
                | inr past ↦
                    let t : ltb q d ≡ false = ground (arith, past) in
                    let u : ltb q (d + suc k) ≡ false = ground (arith, past) in rw (t, u) refl
              ])),
    )

-- If the source has no zero byte among its first `n`, and the copy does not overwrite what it has yet to
-- read, strncpy sets to zero each of the 2 ^ 64 - 1 bytes that follow the `n` bytes of the destination.
pub strncpy_overrun :
    (m : Memory) (d s n j : ℕ)
    → IsApart d s n
    → ((i : ℕ) → i < n → m (s + i) ≢ 0)
    → j < 2 ^ 64 - 1
    → strncpy m d s n (d + n + j) ≡ 0
unfolding strncpy
strncpy_overrun m d s n j apart h lt =
    rw (strncpy, copy_string_full n m d s apart h)
      (memset-inside (2 ^ 64 - 1) (memcpy m d s n) (d + n) 0 (d + n + j) (omega arith)
        (omega arith))
