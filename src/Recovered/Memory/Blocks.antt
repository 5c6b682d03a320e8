-- ===== src/Recovered/Memory/Blocks.antt =====
-- What the block functions of recovered/libc/src/string.c do to each byte, overlapping blocks
-- included; and where strncpy goes past the end of its destination.
use spirit_fox_os.Prelude.{
  ℕ, zero, suc, ◌+◌, ◌-◌, ◌%◌, ◌<◌, ◌≤◌, ◌≡◌, ◌≢◌, refl, ◌∙◌, true, false, ltb, ◌==◌, if◌then◌else◌,
  arith, Bool-cases, inl, inr, ◌⊎◌,
}
use spirit_fox_os.Recovered.Memory.{Memory, store, memset, memcpy, copy_down, memmove}

-- The memory with the block of `n` bytes from `s` on in the place of the block from `d` on.
unfoldable pub moved : Memory → ℕ → ℕ → ℕ → Memory
moved m d s n q = if ltb q d then m q else (if ltb q (d + n) then m (s + (q - d)) else m q)

-- The first byte of the block, and then the others.
moved-store :
    (m : Memory) (d s n q : ℕ)
    → ((a : ℕ) → s < a → a ≤ s + n → a ≢ d)
    → moved (store m d (m s)) (d + 1) (s + 1) n q ≡ moved m d s (suc n) q
unfolding moved
moved-store m d s n q apart = elim (Bool-cases (ltb q d)) [
  | inl before ↦
      let t : ltb q (d + 1) ≡ true = ground (arith, before) in
      let u : (q == d) ≡ false = ground (arith, before) in rw (before, t, u) refl
  | inr after ↦ elim (Bool-cases (q == d)) [
    | inl first ↦
        let same : q ≡ d = ground (arith, first) in
        let t : ltb d (d + 1) ≡ true = ground arith in
        let u : ltb d (d + suc n) ≡ true = ground arith in
        let v : ltb d d ≡ false = ground arith in
        let w : (d == d) ≡ true = ground arith in
        let a : s + (d - d) ≡ s = omega arith in rw (same, t, w, v, u, a) refl
    | inr later ↦
        let t : ltb q (d + 1) ≡ false = ground (arith, after, later) in
        elim (Bool-cases (ltb q (d + suc n))) [
          | inl inside ↦
              let u : ltb q (d + 1 + n) ≡ true = ground (arith, inside) in
              let a : s + 1 + (q - (d + 1)) ≡ s + (q - d) = ground (arith, after, later) in
              let free : (s + (q - d) == d) ≡ false = ground (
                arith,
                apart (s + (q - d)) (ground (arith, after, later)) (ground (arith, inside, after)),
              ) in
              rw (t, u, after, inside, a, free) refl
          | inr past ↦
              let u : ltb q (d + 1 + n) ≡ false = ground (arith, past) in
              rw (t, u, after, past, later) refl
        ]
  ]
]

pub memcpy-moved :
    (n : ℕ) (m : Memory) (d s q : ℕ) → (d < s) ⊎ (s + n ≤ d) → memcpy m d s n q ≡ moved m d s n q
unfolding memcpy moved
memcpy-moved zero m d s q h = ground arith
memcpy-moved (suc n) m d s q h =
    let rest : memcpy (store m d (m s)) (d + 1) (s + 1) n q
        ≡ moved (store m d (m s)) (d + 1) (s + 1) n q =
      memcpy-moved n (store m d (m s)) (d + 1) (s + 1) q (ground (arith, h)) in
    rest ∙ moved-store m d s n q (λ a le lt. ground (arith, h, le, lt))

-- The last byte of the block, and then the others.
moved-store_last :
    (m : Memory) (d s n q : ℕ)
    → s ≤ d
    → moved (store m (d + n) (m (s + n))) d s n q ≡ moved m d s (suc n) q
unfolding moved
moved-store_last m d s n q h = elim (Bool-cases (ltb q d)) [
  | inl before ↦ let u : (q == d + n) ≡ false = ground (arith, before) in rw (before, u) refl
  | inr after ↦ elim (Bool-cases (q == d + n)) [
    | inl last ↦
        let same : q ≡ d + n = ground (arith, last) in
        let t : ltb (d + n) d ≡ false = ground arith in
        let u : ltb (d + n) (d + n) ≡ false = ground arith in
        let v : ltb (d + n) (d + suc n) ≡ true = ground arith in
        let w : (d + n == d + n) ≡ true = ground arith in
        let a : s + (d + n - d) ≡ s + n = omega arith in rw (same, t, u, v, w, a) refl
    | inr other ↦ elim (Bool-cases (ltb q (d + n))) [
      | inl inside ↦
          let u : ltb q (d + suc n) ≡ true = ground (arith, inside) in
          let free : (s + (q - d) == d + n) ≡ false = ground (arith, inside, after) in
          rw (after, inside, u, free) refl
      | inr past ↦
          let u : ltb q (d + suc n) ≡ false = ground (arith, past, other) in
          rw (after, past, u, other) refl
    ]
  ]
]

copy_down-moved : (n : ℕ) (m : Memory) (d s q : ℕ) → s ≤ d → copy_down m d s n q ≡ moved m d s n q
unfolding copy_down moved
copy_down-moved zero m d s q h = ground arith
copy_down-moved (suc n) m d s q h =
    let rest : copy_down (store m (d + n) (m (s + n))) d s n q
        ≡ moved (store m (d + n) (m (s + n))) d s n q =
      copy_down-moved n (store m (d + n) (m (s + n))) d s q h in
    rest ∙ moved-store_last m d s n q h

-- Whether or not the blocks overlap, memmove puts the source block, as it was before the call, in the
-- place of the destination block, and changes no other byte.
pub memmove-moved : (m : Memory) (d s n q : ℕ) → memmove m d s n q ≡ moved m d s n q
unfolding memmove
memmove-moved m d s n q = elim (Bool-cases (ltb d s)) [
  | inl below ↦ rw (below, memmove) (memcpy-moved n m d s q (inl (ground arith)))
  | inr above ↦ rw (above, memmove) (copy_down-moved n m d s q (ground arith))
]

pub memset-outside :
    (n : ℕ) (m : Memory) (p c q : ℕ) → (q < p) ⊎ (p + n ≤ q) → memset m p c n q ≡ m q
unfolding memset
memset-outside zero m p c q h = refl
memset-outside (suc n) m p c q h =
    let b : store m p (c % 256) q ≡ m q =
      let u : (q == p) ≡ false = ground (arith, h) in rw u refl in
    memset-outside n (store m p (c % 256)) (p + 1) c q (ground (arith, h)) ∙ b

pub memset-inside :
    (n : ℕ) (m : Memory) (p c q : ℕ) → p ≤ q → q < p + n → memset m p c n q ≡ c % 256
unfolding memset
memset-inside zero m p c q le lt = absurd (omega arith)
memset-inside (suc n) m p c q le lt = elim (Bool-cases (q == p)) [
  | inl here ↦
      let same : q ≡ p = ground (arith, here) in
      let b : store m p (c % 256) q ≡ c % 256 = rw here refl in
      memset-outside n (store m p (c % 256)) (p + 1) c q (inl (omega (arith, same))) ∙ b
  | inr later ↦
      memset-inside n (store m p (c % 256)) (p + 1) c q (ground (arith, later)) (omega arith)
]
