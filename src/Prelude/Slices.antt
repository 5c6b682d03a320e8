-- ===== src/Prelude/Slices.antt =====
-- Buffers of bytes: slices at an offset, runs of zeros, and little-endian fields.
use Prim.Native.Nat.{ℕ, zero, suc, ◌+◌, ◌-◌, ◌*◌, ◌/◌, ◌%◌, ◌^◌, ◌≤◌, ◌<◌}
use mathlib.Core.Path.{◌≡◌, refl, ap}
use mathlib.Core.Bool.{Bool, true, false, ◌&&◌}
use mathlib.Core.List.{List, [], ◌∷◌, ◌++◌}
use native.Mathlib.Omega.{arith}
use spirit_fox_os.Prelude.Lists.{
  length, take, drop, replicate, length-replicate, length-take, length-drop,
}
use spirit_fox_os.Prelude.Tests.{◌==◌}

abbrev pub is_zero : List ℕ → Bool
is_zero [] = true
is_zero (b ∷ bs) = b == 0 && is_zero bs

-- memcmp(a, b, n) == 0, for the lists of the first n bytes
abbrev pub same_bytes : List ℕ → List ℕ → Bool
same_bytes (x ∷ xs) (y ∷ ys) = x == y && same_bytes xs ys
same_bytes [] [] = true
same_bytes xs ys = false

pub same_bytes_refl : (xs : List ℕ) → same_bytes xs xs ≡ true
same_bytes_refl [] = refl
same_bytes_refl (x ∷ xs) = ground (arith, same_bytes_refl xs)

pub same_bytes→≡ : (xs ys : List ℕ) → same_bytes xs ys ≡ true → xs ≡ ys
same_bytes→≡ [] [] h = refl
same_bytes→≡ [] (y ∷ ys) h = absurd (ground (arith, h))
same_bytes→≡ (x ∷ xs) [] h = absurd (ground (arith, h))
same_bytes→≡ (x ∷ xs) (y ∷ ys) h =
    let head : x ≡ y = ground (arith, h) in
    let tail : same_bytes xs ys ≡ true = ground (arith, h) in
    rw (head, same_bytes→≡ xs ys tail) refl

-- The n bytes of b at offset o.
unfoldable pub slice : ℕ → ℕ → List ℕ → List ℕ
slice o n b = take n (drop o b)

unfoldable pub zeros : ℕ → List ℕ
zeros n = replicate n 0

-- A little-endian field of n bytes.
unfoldable pub le_bytes : ℕ → ℕ → List ℕ
le_bytes zero v = []
le_bytes (suc n) v = v % 256 ∷ le_bytes n (v / 256)

unfoldable pub le_value : List ℕ → ℕ
le_value [] = 0
le_value (b ∷ bs) = b + 256 * le_value bs

pub length-le_bytes : (n v : ℕ) → length (le_bytes n v) ≡ n
unfolding le_bytes
length-le_bytes zero v = refl
length-le_bytes (suc n) v = ap suc (length-le_bytes n (v / 256))

pub le_value-le_bytes : (n v : ℕ) → v < 256 ^ n → le_value (le_bytes n v) ≡ v
unfolding le_bytes le_value
le_value-le_bytes zero v h = omega arith
le_value-le_bytes (suc n) v h =
    let rest : v / 256 < 256 ^ n = omega arith in omega (arith, le_value-le_bytes n (v / 256) rest)

pub zeros-suc : (n : ℕ) → zeros (suc n) ≡ 0 ∷ zeros n
unfolding zeros
zeros-suc n = refl

pub length-zeros : (n : ℕ) → length (zeros n) ≡ n
unfolding zeros
length-zeros n = length-replicate n 0

pub is_zero-replicate : (n : ℕ) → is_zero (replicate n 0) ≡ true
is_zero-replicate zero = refl
is_zero-replicate (suc n) = is_zero-replicate n

pub is_zero-zeros : (n : ℕ) → is_zero (zeros n) ≡ true
unfolding zeros
is_zero-zeros n = is_zero-replicate n

pub take-append_length {ℓ} :
    {A : Type ℓ} (xs ys : List A) (n : ℕ) → length xs ≡ n → take n (xs ++ ys) ≡ xs
take-append_length [] ys zero e = refl
take-append_length [] ys (suc n) e = absurd (omega arith)
take-append_length (x ∷ xs) ys zero e = absurd (omega arith)
take-append_length (x ∷ xs) ys (suc n) e = ap (◌∷◌ x) (take-append_length xs ys n (omega arith))

pub drop-append_length {ℓ} :
    {A : Type ℓ} (xs ys : List A) (n : ℕ) → length xs ≡ n → drop n (xs ++ ys) ≡ ys
drop-append_length [] ys zero e = refl
drop-append_length [] ys (suc n) e = absurd (omega arith)
drop-append_length (x ∷ xs) ys zero e = absurd (omega arith)
drop-append_length (x ∷ xs) ys (suc n) e = drop-append_length xs ys n (omega arith)

pub drop-append_more {ℓ} :
    {A : Type ℓ} (xs ys : List A) (n k : ℕ) → length xs + k ≡ n → drop n (xs ++ ys) ≡ drop k ys
drop-append_more [] ys n k e = let same : n ≡ k = omega arith in rw same refl
drop-append_more (x ∷ xs) ys zero k e = absurd (omega arith)
drop-append_more (x ∷ xs) ys (suc n) k e = drop-append_more xs ys n k (omega arith)

pub take_all {ℓ} : {A : Type ℓ} (xs : List A) (n : ℕ) → length xs ≤ n → take n xs ≡ xs
take_all [] zero e = refl
take_all [] (suc n) e = refl
take_all (x ∷ xs) zero e = absurd (omega arith)
take_all (x ∷ xs) (suc n) e = ap (◌∷◌ x) (take_all xs n (omega arith))

drop-replicate :
    (k n : ℕ) (c : List ℕ) → k ≤ n → drop k (replicate n 0 ++ c) ≡ replicate (n - k) 0 ++ c
drop-replicate zero n c h = let e : n - 0 ≡ n = omega arith in rw e refl
drop-replicate (suc k) zero c h = absurd (omega arith)
drop-replicate (suc k) (suc n) c h =
    let e : suc n - suc k ≡ n - k = omega arith in rw e (drop-replicate k n c (omega arith))

take-replicate : (k n : ℕ) (c : List ℕ) → k ≤ n → take k (replicate n 0 ++ c) ≡ replicate k 0
take-replicate zero n c h = refl
take-replicate (suc k) zero c h = absurd (omega arith)
take-replicate (suc k) (suc n) c h = ap (◌∷◌ 0) (take-replicate k n c (omega arith))

-- What stands between two other parts of a buffer.
pub slice-between :
    (a b c : List ℕ) (o n : ℕ) → length a ≡ o → length b ≡ n → slice o n (a ++ (b ++ c)) ≡ b
unfolding slice
slice-between a b c o n ea eb =
    rw (drop-append_length a (b ++ c) o ea) (take-append_length b c n eb)

pub slice-end : (a b : List ℕ) (o n : ℕ) → length a ≡ o → length b ≡ n → slice o n (a ++ b) ≡ b
unfolding slice
slice-end a b o n ea eb = rw (drop-append_length a b o ea) (take_all b n (omega arith))

pub slice-front : (b c : List ℕ) (n : ℕ) → length b ≡ n → slice 0 n (b ++ c) ≡ b
unfolding slice
slice-front b c n eb = take-append_length b c n eb

-- A slice of a run of zeros.
pub slice-zeros :
    (a c : List ℕ) (o n k w : ℕ)
    → length a + k ≡ o
    → k + n ≤ w
    → slice o n (a ++ (zeros w ++ c)) ≡ zeros n
unfolding slice zeros
slice-zeros a c o n k w e h =
    rw (drop-append_more a (replicate w 0 ++ c) o k e, drop-replicate k w c (omega arith))
      (take-replicate n (w - k) c (omega arith))

-- A slice of what follows a part.
pub slice-skip : (a b : List ℕ) (o n k : ℕ) → length a + k ≡ o → slice o n (a ++ b) ≡ slice k n b
unfolding slice
slice-skip a b o n k e = rw (drop-append_more a b o k e) refl

pub le_value-zeros : (n : ℕ) → le_value (zeros n) ≡ 0
unfolding le_value zeros
le_value-zeros zero = refl
le_value-zeros (suc n) = omega (arith, le_value-zeros n)

pub length-slice_le : (o n : ℕ) (b : List ℕ) → length (slice o n b) ≤ n
unfolding slice
length-slice_le o n b = omega (arith, length-take n (drop o b))

pub length-slice : (o n : ℕ) (b : List ℕ) → o + n ≤ length b → length (slice o n b) ≡ n
unfolding slice
length-slice o n b h = omega (arith, length-take n (drop o b), length-drop o b)

pub zeros-none : zeros 0 ≡ []
unfolding zeros
zeros-none = refl
