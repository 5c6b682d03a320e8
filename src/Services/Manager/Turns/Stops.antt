-- ===== src/Services/Manager/Turns/Stops.antt =====
-- services/manager.c: the stop of a module keeps the ledger.
use spirit_fox_os.Prelude.{
  ℕ, ◌+◌, ◌<◌, ◌≡◌, ◌≢◌, refl, sym, ap, ◌∙◌, true, ◌==◌, if◌then◌else◌, List, length, get_or,
  modify, count_if, arith, Bool-cases, inl, inr, length-modify, get_or-modify_ne,
  get_or-modify_self,
}
use spirit_fox_os.Services.Manager.{
  ModState, Module, Manager, module_at, module_total, no_module, depends, lease, in_state,
  decrement, change_leases,
}
use spirit_fox_os.Services.Manager.Leases.{
  live, uses, count_if-modify, count_if-some, count_if-change_leases, length-change_leases,
  get_or-change_leases,
}
use spirit_fox_os.Services.Manager.Ledger.{Ledger}
use spirit_fox_os.Services.Manager.Turns.{Entry, relet-Entry, self, has_lease}

module _ (held : ℕ → ℕ) (m : Manager) (i : ℕ) (lt : i < module_total) (h : Ledger held m) where
  abbrev pub returned : List Module
  returned = change_leases decrement (self m i).dependencies module_total 0 m.modules

  abbrev pub after_stop : Manager
  after_stop = record m { modules = modify i (in_state ModState.stopped) returned }

  length-returned : length returned ≡ module_total
  length-returned =
      length-change_leases decrement (self m i).dependencies 0 module_total m.modules ∙ h.size

  returned_at :
      (k : ℕ)
      → k < module_total
      → Entry decrement
          (depends (self m i).dependencies k)
          (module_at m k)
          (get_or returned k no_module)
        × ((get_or returned k no_module).state ≡ (module_at m k).state)
  returned_at k klt =
      rw
        (get_or-change_leases decrement (self m i).dependencies 0 module_total k m.modules
          (rw h.size klt))
        (relet-Entry decrement (self m i).dependencies k (module_at m k) klt
          (has_lease held m k h klt))

  stop_other :
      (k : ℕ)
      → k < module_total
      → k ≢ i
      → Entry decrement (depends (self m i).dependencies k) (module_at m k) (module_at after_stop k)
        × ((module_at after_stop k).state ≡ (module_at m k).state)
  stop_other k klt ne =
      rw (get_or-modify_ne i k (in_state ModState.stopped) returned no_module (λ q. ne (sym q)))
        (returned_at k klt)

  stop-self :
      Entry decrement (depends (self m i).dependencies i) (self m i) (module_at after_stop i)
      × ((module_at after_stop i).state ≡ ModState.stopped)
  stop-self =
      let e = (returned_at i lt).0 in
      rw
        (get_or-modify_self i (in_state ModState.stopped) returned no_module
          (rw length-returned lt))
        (
          record {
            dependencies = e.dependencies;
            generation = e.generation;
            generations = e.generations;
            array = e.array;
            leased = e.leased;
          },
          refl,
        )

  stop-Entry :
      (k : ℕ)
      → k < module_total
      → Entry decrement (depends (self m i).dependencies k) (module_at m k) (module_at after_stop k)
  stop-Entry k klt = elim (Bool-cases (k == i)) [
    | inl here ↦ let same : k ≡ i = ground arith in rw same stop-self.0
    | inr away ↦ (stop_other k klt (λ q. absurd (ground (arith, q)))).0
  ]

  stop_counts :
      (j : ℕ)
      → live (self m i).state ≡ true
      → count_if (uses j) after_stop.modules + (if depends (self m i).dependencies j then 1 else 0)
        ≡ count_if (uses j) m.modules
  stop_counts j alive =
      let c2 =
        count_if-change_leases decrement (self m i).dependencies 0 module_total j m.modules in
      let e = returned_at i lt in
      let c3 =
        rw (e.1, e.0.dependencies, alive) at
          (count_if-modify (uses j) (in_state ModState.stopped) i returned no_module
            (rw length-returned lt)) in
      omega (arith, c2, c3)

  pub after_stop-Ledger :
      live (self m i).state ≡ true → lease (self m i) ≡ 0 → Ledger held after_stop
  after_stop-Ledger alive unleased = record {
    size = length-modify i (in_state ModState.stopped) returned ∙ length-returned;
    arrays = λ k klt. (stop-Entry k klt).array ∙ h.arrays k klt;
    counted = λ j jlt.
        let counts = stop_counts j alive in
        let before = h.counted j jlt in
        let now = (stop-Entry j jlt).leased in
        elim (Bool-cases (depends (self m i).dependencies j)) [
          | inl dep ↦ omega (arith, rw dep at counts, before, rw dep at now)
          | inr free ↦ omega (arith, rw free at counts, before, rw free at now)
        ];
    asleep = λ j jlt dead. elim (Bool-cases (j == i)) [
      | inl here ↦
          let same : j ≡ i = ground arith in
          let covered = h.counted i lt in
          let none_held : held i ≡ 0 = omega (arith, covered, unleased) in rw same none_held
      | inr away ↦
          let o = stop_other j jlt (λ q. absurd (ground (arith, q))) in
          h.asleep j jlt (rw o.1 at dead)
    ];
    bound = λ k j klt jlt u. elim (Bool-cases (k == i)) [
      | inl here ↦ let same : k ≡ i = ground arith in absurd (cc (rw (same, stop-self.1) at u))
      | inr away ↦
          let ko = stop_other k klt (λ q. absurd (ground (arith, q))) in
          let u' : uses j (module_at m k) ≡ true = rw (ko.1, ko.0.dependencies) at u in
          let (runs, gen) = h.bound k j klt jlt u' in
          let some_user = count_if-some (uses j) k m.modules no_module refl u' in
          let covered = h.counted j jlt in
          let o =
            stop_other j jlt
              (λ q. absurd (omega (arith, some_user, covered, rw (sym q) at unleased))) in
          (ap live o.1 ∙ runs, o.0.generation ∙ gen ∙ sym (ap (λ g. get_or g j 0) ko.0.generations))
    ];
  }
