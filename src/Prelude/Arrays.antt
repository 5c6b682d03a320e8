-- ===== src/Prelude/Arrays.antt =====
-- Arrays of C as lists: searches and updates, and predicates that hold of every element.
use Prim.Native.Nat.{ℕ, zero, suc, ◌+◌, ◌<◌, ◌≤◌}
use mathlib.Core.Path.{◌≡◌, refl, ap, sym}
use mathlib.Core.Logic.{◌≢◌, ◌⊎◌, inl, inr}
use mathlib.Core.Bool.{Bool, true, false, ◌||◌}
use mathlib.Core.List.{List, [], ◌∷◌, map}
use mathlib.Core.Option.{Option, none, some}
use native.Mathlib.Omega.{arith}
use spirit_fox_os.Prelude.Tests.{if◌then◌else◌, Bool-cases}
use spirit_fox_os.Prelude.Lists.{length, get_or, set, replicate}

module _ {ℓ} {A : Type ℓ} where
  -- The element is replaced by its image; out of range nothing changes.
  abbrev pub modify : ℕ → (A → A) → List A → List A
  modify i f [] = []
  modify zero f (x ∷ xs) = f x ∷ xs
  modify (suc i) f (x ∷ xs) = x ∷ modify i f xs

  -- The index of the first element that passes.
  abbrev pub find_from : (A → Bool) → ℕ → List A → Option ℕ
  find_from p i [] = none
  find_from p i (x ∷ xs) = let rest = find_from p (suc i) xs in if p x then some i else rest

  abbrev pub find_index? : (A → Bool) → List A → Option ℕ
  find_index? p xs = find_from p 0 xs

  abbrev pub count_if : (A → Bool) → List A → ℕ
  count_if p [] = 0
  count_if p (x ∷ xs) = (if p x then 1 else 0) + count_if p xs

  abbrev pub any : (A → Bool) → List A → Bool
  any p [] = false
  any p (x ∷ xs) = p x || any p xs

  abbrev pub keep_if : (A → Bool) → List A → List A
  keep_if p [] = []
  keep_if p (x ∷ xs) = if p x then x ∷ keep_if p xs else keep_if p xs

  abbrev pub All {κ} : (A → Type κ) → List A → Type κ
  All P [] = Unit
  All P (x ∷ xs) = P x × All P xs

  pub length-modify : (i : ℕ) (f : A → A) (xs : List A) → length (modify i f xs) ≡ length xs
  length-modify i f [] = refl
  length-modify zero f (x ∷ xs) = refl
  length-modify (suc i) f (x ∷ xs) = ap suc (length-modify i f xs)

  pub get_or-modify :
      (i j : ℕ) (f : A → A) (xs : List A) (d : A)
      → (get_or (modify i f xs) j d ≡ get_or xs j d)
        ⊎ ((i ≡ j) × (get_or (modify i f xs) j d ≡ f (get_or xs j d)) × (j < length xs))
  get_or-modify i j f [] d = inl refl
  get_or-modify zero zero f (x ∷ xs) d = inr (refl, refl, omega arith)
  get_or-modify zero (suc j) f (x ∷ xs) d = inl refl
  get_or-modify (suc i) zero f (x ∷ xs) d = inl refl
  get_or-modify (suc i) (suc j) f (x ∷ xs) d = elim (get_or-modify i j f xs d) [
    | inl e ↦ inl e
    | inr (e, q, lt) ↦ inr (ap suc e, q, omega arith)
  ]

  pub get_or-modify_ne :
      (i j : ℕ) (f : A → A) (xs : List A) (d : A)
      → i ≢ j
      → get_or (modify i f xs) j d ≡ get_or xs j d
  get_or-modify_ne i j f [] d h = refl
  get_or-modify_ne zero zero f (x ∷ xs) d h = absurd (h refl)
  get_or-modify_ne zero (suc j) f (x ∷ xs) d h = refl
  get_or-modify_ne (suc i) zero f (x ∷ xs) d h = refl
  get_or-modify_ne (suc i) (suc j) f (x ∷ xs) d h = get_or-modify_ne i j f xs d (λ e. h (ap suc e))

  pub get_or-modify_self :
      (i : ℕ) (f : A → A) (xs : List A) (d : A)
      → i < length xs
      → get_or (modify i f xs) i d ≡ f (get_or xs i d)
  get_or-modify_self i f [] d h = elim h [ ]
  get_or-modify_self zero f (x ∷ xs) d h = refl
  get_or-modify_self (suc i) f (x ∷ xs) d h = get_or-modify_self i f xs d (omega arith)

  pub get_or-set_ne :
      (xs : List A) (i j : ℕ) (m d : A) → i ≢ j → get_or (set xs i m) j d ≡ get_or xs j d
  get_or-set_ne [] i j m d ne = refl
  get_or-set_ne (x ∷ xs) zero zero m d ne = absurd (ne refl)
  get_or-set_ne (x ∷ xs) zero (suc j) m d ne = refl
  get_or-set_ne (x ∷ xs) (suc i) zero m d ne = refl
  get_or-set_ne (x ∷ xs) (suc i) (suc j) m d ne = get_or-set_ne xs i j m d (λ e. ne (ap suc e))

  pub get_or-set_self :
      (xs : List A) (i : ℕ) (m d : A) → i < length xs → get_or (set xs i m) i d ≡ m
  get_or-set_self [] i m d lt = elim lt [ ]
  get_or-set_self (x ∷ xs) zero m d lt = refl
  get_or-set_self (x ∷ xs) (suc i) m d lt = get_or-set_self xs i m d (omega arith)

  pub length-keep_if : (p : A → Bool) (xs : List A) → length (keep_if p xs) ≤ length xs
  length-keep_if p [] = omega arith
  length-keep_if p (x ∷ xs) = ground (arith, length-keep_if p xs)

  -- A filter that keeps the length keeps everything.
  pub keep_if_full :
      (p : A → Bool) (xs : List A) → length (keep_if p xs) ≡ length xs → keep_if p xs ≡ xs
  keep_if_full p [] e = refl
  keep_if_full p (x ∷ xs) e = elim (Bool-cases (p x)) [
    | inl y ↦ rw y (ap (◌∷◌ x) (keep_if_full p xs (omega (arith, rw y at e))))
    | inr n ↦ absurd (omega (arith, length-keep_if p xs, rw n at e))
  ]

  pub find_from-get_or :
      (p : A → Bool) (i j : ℕ) (xs : List A) (d : A)
      → find_from p i xs ≡ some j
      → (k : ℕ) × (j ≡ i + k) × (k < length xs) × (p (get_or xs k d) ≡ true)
  find_from-get_or p i j [] d e = absurd (cc e)
  find_from-get_or p i j (x ∷ xs) d e = elim (Bool-cases (p x)) [
    | inl here ↦ (0, ground arith, omega arith, here)
    | inr later ↦
        let (k, q, lt, hit) = find_from-get_or p (suc i) j xs d (rw later at e) in
        (suc k, omega (arith, q), omega (arith, lt), hit)
  ]

  -- The index found is in range, and its element passes.
  pub find_index?-get_or :
      (p : A → Bool) (j : ℕ) (xs : List A) (d : A)
      → find_index? p xs ≡ some j
      → (j < length xs) × (p (get_or xs j d) ≡ true)
  find_index?-get_or p j xs d e =
      let (k, q, lt, hit) = find_from-get_or p 0 j xs d e in
      let same : j ≡ k = omega (arith, q) in (rw same lt, rw same hit)

  pub All-get_or {κ} :
      (P : A → Type κ) (xs : List A) (i : ℕ) (d : A) → All P xs → P d → P (get_or xs i d)
  All-get_or P [] i d h hd = hd
  All-get_or P (x ∷ xs) zero d h hd = h.0
  All-get_or P (x ∷ xs) (suc i) d h hd = All-get_or P xs i d h.1 hd

  pub All-get_or_lt {κ} :
      (P : A → Type κ) (xs : List A) (i : ℕ) (d : A) → All P xs → i < length xs → P (get_or xs i d)
  All-get_or_lt P [] i d h lt = elim lt [ ]
  All-get_or_lt P (x ∷ xs) zero d h lt = h.0
  All-get_or_lt P (x ∷ xs) (suc i) d h lt = All-get_or_lt P xs i d h.1 (omega arith)

  pub All-modify {κ} :
      (P : A → Type κ) (f : A → A) (xs : List A) (i : ℕ) (d : A)
      → All P xs
      → (P (get_or xs i d) → P (f (get_or xs i d)))
      → All P (modify i f xs)
  All-modify P f [] i d h k = tt
  All-modify P f (x ∷ xs) zero d h k = (k h.0, h.1)
  All-modify P f (x ∷ xs) (suc i) d h k = (h.0, All-modify P f xs i d h.1 k)

  pub All-mono {κ ι} :
      (P : A → Type κ) (Q : A → Type ι) (xs : List A) → All P xs → ((x : A) → P x → Q x) → All Q xs
  All-mono P Q [] h k = tt
  All-mono P Q (x ∷ xs) h k = (k x h.0, All-mono P Q xs h.1 k)

pub All-replicate {ℓ κ} :
    {A : Type ℓ} (P : A → Type κ) (n : ℕ) (x : A) → P x → All P (replicate n x)
All-replicate P zero x h = tt
All-replicate P (suc n) x h = (h, All-replicate P n x h)

pub All-map {ℓ κ ι} :
    {A : Type ℓ} {B : Type ι} (P : A → Type κ) (Q : B → Type κ) (f : A → B) (xs : List A)
    → All P xs
    → ((x : A) → P x → Q (f x))
    → All Q (map f xs)
All-map P Q f [] h k = tt
All-map P Q f (x ∷ xs) h k = (k x h.0, All-map P Q f xs h.1 k)

pub get_or-map {ℓ ι} :
    {A : Type ℓ} {B : Type ι} (f : A → B) (xs : List A) (i : ℕ) (d : A)
    → get_or (map f xs) i (f d) ≡ f (get_or xs i d)
get_or-map f [] i d = refl
get_or-map f (x ∷ xs) zero d = refl
get_or-map f (x ∷ xs) (suc i) d = get_or-map f xs i d

pub length-map {ℓ ι} :
    {A : Type ℓ} {B : Type ι} (f : A → B) (xs : List A) → length (map f xs) ≡ length xs
length-map f [] = refl
length-map f (x ∷ xs) = ap suc (length-map f xs)

-- The same for a function that keeps the default.
pub get_or-map_fix {ℓ} :
    {A : Type ℓ} (f : A → A) (xs : List A) (i : ℕ) (d : A)
    → f d ≡ d
    → get_or (map f xs) i d ≡ f (get_or xs i d)
get_or-map_fix f [] i d e = sym e
get_or-map_fix f (x ∷ xs) zero d e = refl
get_or-map_fix f (x ∷ xs) (suc i) d e = get_or-map_fix f xs i d e
