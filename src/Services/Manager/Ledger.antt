-- ===== src/Services/Manager/Ledger.antt =====
-- services/manager.c: the lease counts cover the modules that run, and what a running module depends
-- on is running too.
use spirit_fox_os.Prelude.{
  ℕ, zero, suc, ◌+◌, ◌-◌, pos, negsuc, if-cases, Bool-cases, get_or-modify_self, ◌<◌, ◌≤◌, ◌≡◌, ◌≢◌,
  refl, sym, ap, ◌∙◌, Bool, true, false, leb, ◌==◌, not, ◌||◌, if◌then◌else◌, ℤ, length, get_or,
  count_if, arith, inl, inr, length-modify, get_or-modify, get_or-modify_ne,
}
use spirit_fox_os.Services.Manager.{
  ModState, Module, Manager, module_at, modify_module, module_total, res_count, no_module, lease,
  resource, is_active, is_draining, is_quiescing, uint32_max, res_lease, set_resource, in_state,
  increment, decrement, provider_generation, acquire, release, prepare, cancel, unload,
}
use spirit_fox_os.Services.Manager.Leases.{live, uses, count_if-modify}

-- `held` counts, for each entry, the leases that clients have acquired and not given back.
pub record Ledger (held : ℕ → ℕ) (m : Manager) : Type 0 where
  pub size : length m.modules ≡ module_total
  pub arrays : (i : ℕ) → i < module_total → length (module_at m i).resources ≡ res_count
  -- Each running module that depends on `j` has a lease of it, beside those that clients hold.
  pub counted :
      (j : ℕ) → j < module_total → count_if (uses j) m.modules + held j ≤ lease (module_at m j)
  -- Nobody holds a lease of a module that does not run.
  pub asleep : (j : ℕ) → j < module_total → live (module_at m j).state ≡ false → held j ≡ 0
  -- What a running module depends on runs, and is the module that was there at the start.
  pub bound :
      (i j : ℕ)
      → i < module_total
      → j < module_total
      → uses j (module_at m i) ≡ true
      → (live (module_at m j).state ≡ true)
        × ((module_at m j).generation ≡ provider_generation (module_at m i) j)

abbrev pub is_ok : ℤ → Bool
is_ok (pos zero) = true
is_ok (pos (suc n)) = false
is_ok (negsuc n) = false

-- A change of an entry that the ledger allows.
record Like (x y : Module) : Type 0 where
  alive : live y.state ≡ live x.state
  dependencies : y.dependencies ≡ x.dependencies
  generation : y.generation ≡ x.generation
  generations : y.dependency_generations ≡ x.dependency_generations
  array : length y.resources ≡ length x.resources

Like-refl : (x : Module) → Like x x
Like-refl x = record {
  alive = refl;
  dependencies = refl;
  generation = refl;
  generations = refl;
  array = refl;
}

Like-uses : (x y : Module) (j : ℕ) → Like x y → uses j y ≡ uses j x
Like-uses x y j l = rw (l.alive, l.dependencies) refl

-- A change of one entry keeps the ledger, if it keeps what the ledger is about, and its leases change
-- with those that are held.
held-Ledger :
    (held held' : ℕ → ℕ) (i : ℕ) (f : Module → Module) (m : Manager)
    → i < module_total
    → Like (module_at m i) (f (module_at m i))
    → ((j : ℕ)
        → j < module_total
        → held' j + lease (module_at m j) ≤ held j + lease (module_at (modify_module i f m) j))
    → ((j : ℕ) → j < module_total → live (module_at m j).state ≡ false → held' j ≡ 0)
    → Ledger held m
    → Ledger held' (modify_module i f m)
held-Ledger held held' i f m lt like covers nobody h = record {
  size = length-modify i f m.modules ∙ h.size;
  arrays = λ k klt. (at k).array ∙ h.arrays k klt;
  counted = λ j jlt.
      let counts = count_if-modify (uses j) f i m.modules no_module (rw h.size lt) in
      let same = Like-uses (module_at m i) (f (module_at m i)) j like in
      let before = h.counted j jlt in
      let more = covers j jlt in omega (arith, rw same at counts, before, more);
  asleep = λ j jlt dead. nobody j jlt (sym (at j).alive ∙ dead);
  bound = λ k j klt jlt u.
      let (runs, gen) = h.bound k j klt jlt (sym (Like-uses _ _ j (at k)) ∙ u) in
      (
        (at j).alive ∙ runs,
        (at j).generation ∙ gen ∙ sym (ap (λ g. get_or g j 0) (at k).generations),
      );
}
  where
    at : (k : ℕ) → Like (module_at m k) (module_at (modify_module i f m) k)
    at k = elim (get_or-modify i k f m.modules no_module) [
      | inl e ↦ rw e (Like-refl (module_at m k))
      | inr (same, e, klt) ↦ rw e (rw same at like)
    ]

-- The same, when no client takes or gives back a lease.
modify_module-Ledger :
    (held : ℕ → ℕ) (i : ℕ) (f : Module → Module) (m : Manager)
    → i < module_total
    → Like (module_at m i) (f (module_at m i))
    → lease (module_at m i) ≤ lease (f (module_at m i))
    → Ledger held m
    → Ledger held (modify_module i f m)
modify_module-Ledger held i f m lt like leased h =
    held-Ledger held held i f m lt like covers (λ j jlt dead. h.asleep j jlt dead) h
  where
    covers :
        (j : ℕ)
        → j < module_total
        → held j + lease (module_at m j) ≤ held j + lease (module_at (modify_module i f m) j)
    covers j jlt = elim (get_or-modify i j f m.modules no_module) [
      | inl e ↦ rw e (omega arith)
      | inr (same, e, klt) ↦
          let here : lease (module_at m j) ≤ lease (f (module_at m j)) = rw same at leased in
          rw e (omega (arith, here))
    ]

set_resource-Like : (r : ℕ) (f : ℕ → ℕ) (x : Module) → Like x (set_resource r f x)
set_resource-Like r f x = record {
  alive = refl;
  dependencies = refl;
  generation = refl;
  generations = refl;
  array = length-modify r f x.resources;
}

in_state-Like : (s : ModState) (x : Module) → live s ≡ live x.state → Like x (in_state s x)
in_state-Like s x e = record {
  alive = e;
  dependencies = refl;
  generation = refl;
  generations = refl;
  array = refl;
}

increment-more : (r : ℕ) (x : Module) → lease x ≤ lease (set_resource r increment x)
increment-more r x = elim (get_or-modify r res_lease increment x.resources 0) [
  | inl e ↦ omega (arith, e)
  | inr (same, e, lt) ↦ omega (arith, e)
]

pub live_active : (s : ModState) → is_active s ≡ true → live s ≡ true
live_active s e = ground (arith, e)

-- An early return changes nothing.
pub unless :
    (held : ℕ → ℕ) (m : Manager) (b : Bool) (e : ℤ) (r : Manager × ℤ)
    → Ledger held m
    → (b ≡ false → Ledger held r.0)
    → Ledger held (if b then (m, e) else r).0
unless held m true e r h k = h
unless held m false e r h k = k refl

-- The leases that clients hold after one of entry `i` is taken, or given back.
abbrev pub taken : (ℕ → ℕ) → ℕ → ℕ → ℕ
taken held i j = if j == i then held j + 1 else held j

abbrev pub returned : (ℕ → ℕ) → ℕ → ℕ → ℕ
returned held i j = if j == i then held j - 1 else held j

-- The leases of one entry change, and no other.
lease_at :
    (held : ℕ → ℕ) (f : ℕ → ℕ) (m : Manager) (i j : ℕ)
    → Ledger held m
    → i < module_total
    → lease (module_at (modify_module i (set_resource res_lease f) m) j)
      ≡ (if j == i then f (lease (module_at m j)) else lease (module_at m j))
lease_at held f m i j h lt = elim (Bool-cases (j == i)) [
  | inr away ↦
      let other =
        get_or-modify_ne i j (set_resource res_lease f) m.modules no_module
          (λ q. absurd (ground (arith, q, away))) in
      rw (away, other) refl
  | inl here ↦
      let same : j ≡ i = ground arith in
      let new =
        get_or-modify_self i (set_resource res_lease f) m.modules no_module (rw h.size lt) in
      let some_lease : res_lease < length (module_at m i).resources =
        omega (arith, h.arrays i lt) in
      rw (here, same, new) (get_or-modify_self res_lease f (module_at m i).resources 0 some_lease)
]

-- How a call that may take a lease ends.
abbrev TakenOk : (ℕ → ℕ) → ℕ → Manager × ℤ → Type 0
TakenOk held i r = Ledger (if is_ok r.1 then taken held i else held) r.0

pub acquire_lease-Ledger :
    (held : ℕ → ℕ) (m : Manager) (i : ℕ)
    → Ledger held m
    → Ledger
        (if is_ok (acquire m i res_lease).1 then taken held i else held)
        (acquire m i res_lease).0
unfolding acquire
acquire_lease-Ledger held m i h =
    let x = module_at m i in
    if-cases (TakenOk held i) (leb module_total i || leb res_count res_lease) _ _ (λ p. h)
      (λ inside.
        let lt : i < module_total = ground (arith, inside) in
        if-cases (TakenOk held i) (is_quiescing x.state || is_draining x.state) _ _ (λ p. h)
          (λ p.
            if-cases (TakenOk held i) (not (is_active x.state)) _ _ (λ q. h)
              (λ active.
                if-cases (TakenOk held i) (resource x res_lease == uint32_max) _ _ (λ q. h)
                  (λ room.
                    held-Ledger held (taken held i) i (set_resource res_lease increment) m lt
                      (set_resource-Like res_lease increment x)
                      (λ j jlt.
                        let new = lease_at held increment m i j h lt in
                        elim (Bool-cases (j == i)) [
                          | inl here ↦ rw here (omega (arith, rw here at new))
                          | inr away ↦ rw away (omega (arith, rw away at new))
                        ])
                      (λ j jlt dead. elim (Bool-cases (j == i)) [
                        | inl here ↦
                            let same : j ≡ i = ground arith in
                            absurd (ground (arith, rw same at dead, active))
                        | inr away ↦ rw away (h.asleep j jlt dead)
                      ])
                      h))))

-- A client may forget a lease.
fewer-Ledger :
    (held held' : ℕ → ℕ) (m : Manager)
    → ((j : ℕ) → held' j ≤ held j)
    → Ledger held m
    → Ledger held' m
fewer-Ledger held held' m less h = record {
  size = h.size;
  arrays = h.arrays;
  counted = λ j jlt. let before = h.counted j jlt in let l = less j in omega (arith, before, l);
  asleep =
      λ j jlt dead. let nobody = h.asleep j jlt dead in let l = less j in omega (arith, nobody, l);
  bound = h.bound;
}

-- A lease that a client holds is given back.
pub release_lease-Ledger :
    (held : ℕ → ℕ) (m : Manager) (i : ℕ)
    → 0 < held i
    → Ledger held m
    → Ledger (returned held i) (release m i res_lease).0
unfolding release
release_lease-Ledger held m i own h =
    if-cases (λ (r : Manager × ℤ). Ledger (returned held i) r.0)
      (leb module_total i || (leb res_count res_lease || (lease (module_at m i) == 0))) _ _
      (λ refused.
        fewer-Ledger held (returned held i) m
          (λ j. elim (Bool-cases (j == i)) [
            | inl here ↦ rw here (omega arith)
            | inr away ↦ rw away (omega arith)
          ])
          h)
      (λ inside.
        let lt : i < module_total = ground (arith, inside) in
        let covered = h.counted i lt in
        held-Ledger held (returned held i) i (set_resource res_lease decrement) m lt
          (set_resource-Like res_lease decrement (module_at m i))
          (λ j jlt.
            let new = lease_at held decrement m i j h lt in
            elim (Bool-cases (j == i)) [
              | inl here ↦
                  let same : j ≡ i = ground arith in
                  let mine : 0 < held j = rw same own in
                  let more : held j ≤ lease (module_at m j) = omega (arith, h.counted j jlt) in
                  rw here (omega (arith, rw here at new, mine, more))
              | inr away ↦ rw away (omega (arith, rw away at new))
            ])
          (λ j jlt dead.
            let nobody = h.asleep j jlt dead in
            elim (Bool-cases (j == i)) [
              | inl here ↦ rw here (omega (arith, nobody))
              | inr away ↦ rw away nobody
            ])
          h)

-- A resource that is no lease.
lease-other :
    (r : ℕ) (f : ℕ → ℕ) (x : Module) → r ≢ res_lease → lease (set_resource r f x) ≡ lease x
lease-other r f x ne = get_or-modify_ne r res_lease f x.resources 0 ne

pub acquire-Ledger :
    (held : ℕ → ℕ) (m : Manager) (i r : ℕ)
    → r ≢ res_lease
    → Ledger held m
    → Ledger held (acquire m i r).0
unfolding acquire
acquire-Ledger held m i r ne h =
    let x = module_at m i in
    unless held m (leb module_total i || leb res_count r) _ _ h (λ inside.
      unless held m (is_quiescing x.state || is_draining x.state) _ _ h (λ p.
        unless held m (not (is_active x.state)) _ _ h (λ q.
          unless held m (resource x r == uint32_max) _ _ h (λ room.
            modify_module-Ledger held i (set_resource r increment) m (ground (arith, inside))
              (set_resource-Like r increment x) (omega (arith, lease-other r increment x ne)) h))))

pub release-Ledger :
    (held : ℕ → ℕ) (m : Manager) (i r : ℕ)
    → r ≢ res_lease
    → Ledger held m
    → Ledger held (release m i r).0
unfolding release
release-Ledger held m i r ne h = unless held m _ _ _ h (λ inside.
    modify_module-Ledger held i (set_resource r decrement) m (ground (arith, inside))
      (set_resource-Like r decrement (module_at m i))
      (omega (arith, lease-other r decrement (module_at m i) ne)) h)

pub prepare-Ledger :
    (held : ℕ → ℕ) (m : Manager) (i : ℕ) → Ledger held m → Ledger held (prepare m i).0
unfolding prepare
prepare-Ledger held m i h =
    let x = module_at m i in
    unless held m (leb module_total i) _ _ h (λ inside. unless held m x.pinned _ _ h (λ free.
      unless held m (not (is_active x.state)) _ _ h (λ running.
        modify_module-Ledger held i (in_state ModState.draining) m (ground (arith, inside))
          (in_state-Like ModState.draining x (ground (arith, running))) (omega arith) h)))

pub cancel-Ledger :
    (held : ℕ → ℕ) (m : Manager) (i : ℕ) → Ledger held m → Ledger held (cancel m i).0
unfolding cancel
cancel-Ledger held m i h = unless held m _ _ _ h (λ p.
    modify_module-Ledger held i (in_state ModState.active) m (ground (arith, p))
      (in_state-Like ModState.active (module_at m i) (ground (arith, p))) (omega arith) h)

pub unload-Ledger :
    (held : ℕ → ℕ) (m : Manager) (i : ℕ) → Ledger held m → Ledger held (unload m i).0
unfolding unload
unload-Ledger held m i h = unless held m _ _ _ h (λ p.
    modify_module-Ledger held i (in_state ModState.unloaded) m (ground (arith, p))
      (in_state-Like ModState.unloaded (module_at m i) (ground (arith, p))) (omega arith) h)
