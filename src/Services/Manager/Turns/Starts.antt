-- ===== src/Services/Manager/Turns/Starts.antt =====
-- services/manager.c: the start of a module keeps the ledger.
use spirit_fox_os.Prelude.{
  ℕ, ◌+◌, ◌<◌, ◌≡◌, ◌≢◌, refl, sym, ap, ◌∙◌, true, false, ◌==◌, if◌then◌else◌, List, length, get_or,
  modify, count_if, arith, Bool-cases, inl, inr, length-modify, get_or-modify_ne,
  get_or-modify_self,
}
use spirit_fox_os.Services.Manager.{
  ModState, Module, Manager, module_at, module_total, no_module, depends, in_state, increment,
  change_leases,
}
use spirit_fox_os.Services.Manager.Leases.{
  live, uses, relet, count_if-modify, count_if-change_leases, length-change_leases,
  get_or-change_leases, Provides,
}
use spirit_fox_os.Services.Manager.Ledger.{Ledger, live_active}
use spirit_fox_os.Services.Manager.Turns.{Entry, relet-Entry, self, has_lease}

module _ (held : ℕ → ℕ) (m : Manager) (i : ℕ) (lt : i < module_total) (h : Ledger held m) where
  abbrev pub begun : List Module
  begun = modify i (in_state ModState.initialized) m.modules

  abbrev pub leased_all : List Module
  leased_all = change_leases increment (self m i).dependencies module_total 0 begun

  abbrev pub after_start : Manager
  after_start = record m { modules = modify i (in_state ModState.active) leased_all }

  begun-other : (k : ℕ) → k ≢ i → get_or begun k no_module ≡ module_at m k
  begun-other k ne =
      get_or-modify_ne i k (in_state ModState.initialized) m.modules no_module (λ q. ne (sym q))

  begun-self : get_or begun i no_module ≡ in_state ModState.initialized (self m i)
  begun-self =
      get_or-modify_self i (in_state ModState.initialized) m.modules no_module (rw h.size lt)

  leased_all_at :
      (k : ℕ)
      → k < module_total
      → get_or leased_all k no_module
        ≡ relet increment (self m i).dependencies 0 module_total k (get_or begun k no_module)
  leased_all_at k klt =
      get_or-change_leases increment (self m i).dependencies 0 module_total k begun
        (rw (length-modify i (in_state ModState.initialized) m.modules, h.size) klt)

  start_other :
      (k : ℕ)
      → k < module_total
      → k ≢ i
      → Entry increment
          (depends (self m i).dependencies k)
          (module_at m k)
          (module_at after_start k)
        × ((module_at after_start k).state ≡ (module_at m k).state)
  start_other k klt ne =
      rw
        (
          get_or-modify_ne i k (in_state ModState.active) leased_all no_module (λ q. ne (sym q)),
          leased_all_at k klt,
          begun-other k ne,
        )
        (relet-Entry increment (self m i).dependencies k (module_at m k) klt
          (has_lease held m k h klt))

  leased_self :
      Entry increment
        (depends (self m i).dependencies i)
        (in_state ModState.initialized (self m i))
        (get_or leased_all i no_module)
      × ((get_or leased_all i no_module).state ≡ ModState.initialized)
  leased_self =
      rw (leased_all_at i lt, begun-self)
        (relet-Entry increment (self m i).dependencies i (in_state ModState.initialized (self m i))
          lt (has_lease held m i h lt))

  length-leased_all : length leased_all ≡ module_total
  length-leased_all =
      length-change_leases increment (self m i).dependencies 0 module_total begun
      ∙ length-modify i (in_state ModState.initialized) m.modules
      ∙ h.size

  start-self :
      Entry increment (depends (self m i).dependencies i) (self m i) (module_at after_start i)
      × ((module_at after_start i).state ≡ ModState.active)
  start-self =
      let e = leased_self.0 in
      rw
        (get_or-modify_self i (in_state ModState.active) leased_all no_module
          (rw length-leased_all lt))
        (
          record {
            dependencies = e.dependencies;
            generation = e.generation;
            generations = e.generations;
            array = e.array;
            leased = e.leased;
          },
          refl,
        )

  start_counts :
      (j : ℕ)
      → live (self m i).state ≡ false
      → count_if (uses j) after_start.modules
        ≡ count_if (uses j) m.modules + (if depends (self m i).dependencies j then 1 else 0)
  start_counts j dead =
      let c1 = rw dead at (
        count_if-modify (uses j) (in_state ModState.initialized) i m.modules no_module
          (rw h.size lt)) in
      let c2 = count_if-change_leases increment (self m i).dependencies 0 module_total j begun in
      let c3 =
        rw (leased_self.1, leased_self.0.dependencies) at
          (count_if-modify (uses j) (in_state ModState.active) i leased_all no_module
            (rw length-leased_all lt)) in
      omega (arith, c1, c2, c3)

  start-Entry :
      (k : ℕ)
      → k < module_total
      → Entry increment
          (depends (self m i).dependencies k)
          (module_at m k)
          (module_at after_start k)
  start-Entry k klt = elim (Bool-cases (k == i)) [
    | inl here ↦ let same : k ≡ i = ground arith in rw same start-self.0
    | inr away ↦ (start_other k klt (λ q. absurd (ground (arith, q)))).0
  ]

  pub after_start-Ledger :
      live (self m i).state ≡ false
      → ((k : ℕ)
          → k < module_total
          → depends (self m i).dependencies k ≡ true
          → Provides (self m i) i k (module_at m k))
      → Ledger held after_start
  after_start-Ledger dead provided = record {
    size = length-modify i (in_state ModState.active) leased_all ∙ length-leased_all;
    arrays = λ k klt. (start-Entry k klt).array ∙ h.arrays k klt;
    counted = λ j jlt.
        let counts = start_counts j dead in
        let before = h.counted j jlt in
        let now = (start-Entry j jlt).leased in
        elim (Bool-cases (depends (self m i).dependencies j)) [
          | inl dep ↦ omega (arith, rw dep at counts, before, rw dep at now)
          | inr free ↦ omega (arith, rw free at counts, before, rw free at now)
        ];
    asleep = λ j jlt dead'. elim (Bool-cases (j == i)) [
      | inl here ↦ let same : j ≡ i = ground arith in absurd (cc (rw (same, start-self.1) at dead'))
      | inr away ↦
          let o = start_other j jlt (λ q. absurd (ground (arith, q))) in
          h.asleep j jlt (rw o.1 at dead')
    ];
    bound = λ k j klt jlt u. elim (Bool-cases (k == i)) [
      | inl here ↦
          let same : k ≡ i = ground arith in
          let mine = rw (same, start-self.1, start-self.0.dependencies) at u in
          let p = provided j jlt mine in
          let o = start_other j jlt p.other in
          (
            ap live o.1 ∙ live_active _ p.running,
            o.0.generation
                ∙ p.same
                ∙ rw same (sym (ap (λ g. get_or g j 0) start-self.0.generations)),
          )
      | inr away ↦
          let ko = start_other k klt (λ q. absurd (ground (arith, q))) in
          let u' : uses j (module_at m k) ≡ true = rw (ko.1, ko.0.dependencies) at u in
          let (runs, gen) = h.bound k j klt jlt u' in
          let o = start_other j jlt (λ q. absurd (cc (sym (rw q at runs) ∙ dead))) in
          (ap live o.1 ∙ runs, o.0.generation ∙ gen ∙ sym (ap (λ g. get_or g j 0) ko.0.generations))
    ];
  }
