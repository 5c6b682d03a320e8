-- ===== src/Services/Manager/Leases.antt =====
-- The loops of services/manager.c over the providers of a module, entry by entry.
use spirit_fox_os.Prelude.{
  ℕ, zero, suc, ◌+◌, ◌<◌, ◌≤◌, ◌≡◌, ◌≢◌, refl, ◌∙◌, Bool, true, false, ltb, leb, ◌==◌, ◌&&◌,
  if◌then◌else◌, pos, List, [], ◌∷◌, length, get_or, modify, count_if, arith, Bool-cases, inl, inr,
  ◌⊎◌, length-modify, get_or-modify_ne, get_or-modify_self,
}
use spirit_fox_os.Services.Manager.{
  ModState, Module, no_module, depends, is_active, res_lease, set_resource, change_leases,
  check_start, provider_generation,
}

-- ACTIVE or DRAINING: the module holds its leases.
abbrev pub live : ModState → Bool
live ModState.active = true
live ModState.draining = true
live _ = false

abbrev pub uses : ℕ → Module → Bool
uses j x = live x.state && depends x.dependencies j

module _ {ℓ} {A : Type ℓ} where
  pub count_if-modify :
      (q : A → Bool) (f : A → A) (i : ℕ) (xs : List A) (d : A)
      → i < length xs
      → count_if q (modify i f xs) + (if q (get_or xs i d) then 1 else 0)
        ≡ count_if q xs + (if q (f (get_or xs i d)) then 1 else 0)
  count_if-modify q f i [] d lt = absurd (omega arith)
  count_if-modify q f zero (x ∷ xs) d lt = omega arith
  count_if-modify q f (suc i) (x ∷ xs) d lt =
      omega (arith, count_if-modify q f i xs d (omega arith))

  pub count_if-modify_same :
      (q : A → Bool) (f : A → A) (i : ℕ) (xs : List A)
      → ((x : A) → q (f x) ≡ q x)
      → count_if q (modify i f xs) ≡ count_if q xs
  count_if-modify_same q f i [] h = refl
  count_if-modify_same q f zero (x ∷ xs) h = rw (h x) refl
  count_if-modify_same q f (suc i) (x ∷ xs) h = rw (count_if-modify_same q f i xs h) refl

  pub count_if-some :
      (q : A → Bool) (i : ℕ) (xs : List A) (d : A)
      → q d ≡ false
      → q (get_or xs i d) ≡ true
      → 1 ≤ count_if q xs
  count_if-some q i [] d n e = absurd (ground (arith, e, n))
  count_if-some q zero (x ∷ xs) d n e = ground (arith, e)
  count_if-some q (suc i) (x ∷ xs) d n e = omega (arith, count_if-some q i xs d n e)

pub count_if-change_leases :
    (f : ℕ → ℕ) (deps j rounds k : ℕ) (ms : List Module)
    → count_if (uses k) (change_leases f deps rounds j ms) ≡ count_if (uses k) ms
unfolding change_leases
count_if-change_leases f deps j zero k ms = refl
count_if-change_leases f deps j (suc rounds) k ms = elim (Bool-cases (depends deps j)) [
  | inl dep ↦ rw dep (
      count_if-change_leases f deps (j + 1) rounds k (modify j (set_resource res_lease f) ms)
      ∙ count_if-modify_same (uses k) (set_resource res_lease f) j ms (λ x. refl))
  | inr free ↦ rw free (count_if-change_leases f deps (j + 1) rounds k ms)
]

pub length-change_leases :
    (f : ℕ → ℕ) (deps j rounds : ℕ) (ms : List Module)
    → length (change_leases f deps rounds j ms) ≡ length ms
unfolding change_leases
length-change_leases f deps j zero ms = refl
length-change_leases f deps j (suc rounds) ms = elim (Bool-cases (depends deps j)) [
  | inl dep ↦ rw dep (
      length-change_leases f deps (j + 1) rounds (modify j (set_resource res_lease f) ms)
      ∙ length-modify j (set_resource res_lease f) ms)
  | inr free ↦ rw free (length-change_leases f deps (j + 1) rounds ms)
]

-- The entry `k` after the rounds from `j` on.
abbrev pub relet : (ℕ → ℕ) → ℕ → ℕ → ℕ → ℕ → Module → Module
relet f deps j rounds k x =
    if leb j k && (ltb k (j + rounds) && depends deps k) then set_resource res_lease f x else x

-- The tests of one round less, for an entry that the round leaves.
round_left :
    (j rounds k : ℕ) (d : Bool)
    → (j ≢ k) ⊎ (d ≡ false)
    → (leb (j + 1) k && (ltb k (j + 1 + rounds) && d)) ≡ (leb j k && (ltb k (j + suc rounds) && d))
round_left j rounds k true (inl ne) = ground (arith, ne)
round_left j rounds k true (inr e) = absurd (cc e)
round_left j rounds k false h = ground arith

round_here :
    (j rounds : ℕ) (d : Bool)
    → d ≡ true
    → ((leb (j + 1) j && (ltb j (j + 1 + rounds) && d)) ≡ false)
      × ((leb j j && (ltb j (j + suc rounds) && d)) ≡ true)
round_here j rounds d e = (ground (arith, e), ground (arith, e))

pub get_or-change_leases :
    (f : ℕ → ℕ) (deps j rounds k : ℕ) (ms : List Module)
    → k < length ms
    → get_or (change_leases f deps rounds j ms) k no_module
      ≡ relet f deps j rounds k (get_or ms k no_module)
unfolding change_leases
get_or-change_leases f deps j zero k ms lt = ground arith
get_or-change_leases f deps j (suc rounds) k ms lt = elim (Bool-cases (depends deps j)) [
  | inr free ↦
      let left : (j ≢ k) ⊎ (depends deps k ≡ false) = elim (Bool-cases (j == k)) [
        | inl here ↦ let same : j ≡ k = ground arith in inr (rw same at free)
        | inr away ↦ inl (λ q. absurd (ground (arith, q)))
      ] in
      rw free (
        get_or-change_leases f deps (j + 1) rounds k ms lt
        ∙ rw (round_left j rounds k (depends deps k) left) refl)
  | inl dep ↦
      let ms' = modify j (set_resource res_lease f) ms in
      let lt' : k < length ms' = rw (length-modify j (set_resource res_lease f) ms) lt in
      elim (Bool-cases (j == k)) [
        | inl here ↦
            let same : k ≡ j = ground arith in
            let (skip, hit) = round_here j rounds (depends deps j) dep in
            rw dep (
              get_or-change_leases f deps (j + 1) rounds k ms' lt'
              ∙ rw (same, skip, hit)
                  (get_or-modify_self j (set_resource res_lease f) ms no_module (rw same at lt)))
        | inr away ↦
            let ne : j ≢ k = λ q. absurd (ground (arith, q)) in
            rw dep (
              get_or-change_leases f deps (j + 1) rounds k ms' lt'
              ∙ rw
                  (
                    round_left j rounds k (depends deps k) (inl ne),
                    get_or-modify_ne j k (set_resource res_lease f) ms no_module ne,
                  )
                  refl)
      ]
]

pub record Provides (x : Module) (i j : ℕ) (p : Module) : Type 0 where
  pub other : j ≢ i
  pub running : is_active p.state ≡ true
  pub same : p.generation ≡ provider_generation x j

pub check_start-Provides :
    (ms : List Module) (x : Module) (i j rounds n k : ℕ)
    → check_start ms x i rounds j ≡ pos n
    → j ≤ k
    → k < j + rounds
    → depends x.dependencies k ≡ true
    → Provides x i k (get_or ms k no_module)
unfolding check_start
check_start-Provides ms x i j zero n k e le lt d = absurd (omega arith)
check_start-Provides ms x i j (suc rounds) n k e le lt d = elim (Bool-cases (j == k)) [
  | inl here ↦
      let same : j ≡ k = ground arith in
      let e' = rw same at e in
      record { other = ground (arith, e'); running = ground (arith, e'); same = ground (arith, e') }
  | inr later ↦
      check_start-Provides ms x i (j + 1) rounds n k (ground (arith, e)) (ground arith)
        (omega arith) d
]
