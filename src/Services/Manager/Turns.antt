-- ===== src/Services/Manager/Turns.antt =====
-- services/manager.c: what the loops of a start and a stop do to one entry.
pub mod Starts
pub mod Stops
use spirit_fox_os.Prelude.{
  ℕ, ◌+◌, ◌<◌, ◌≡◌, ◌≢◌, refl, sym, ap, ◌∙◌, Bool, true, false, ltb, leb, ◌==◌, ◌&&◌, if◌then◌else◌,
  List, length, get_or, modify, count_if, arith, Bool-cases, inl, inr, length-modify,
  get_or-modify_ne, get_or-modify_self,
}
use spirit_fox_os.Services.Manager.{
  ModState, Module, Manager, module_at, module_total, no_module, depends, lease, res_lease,
  in_state, increment, decrement, change_leases,
}
use spirit_fox_os.Services.Manager.Leases.{
  live, uses, relet, count_if-modify, count_if-some, count_if-change_leases, length-change_leases,
  get_or-change_leases, Provides,
}
use spirit_fox_os.Services.Manager.Ledger.{Ledger, live_active}

-- What a loop over the providers does to an entry; `d` says whether the entry is a provider.
pub record Entry (f : ℕ → ℕ) (d : Bool) (z y : Module) : Type 0 where
  pub dependencies : y.dependencies ≡ z.dependencies
  pub generation : y.generation ≡ z.generation
  pub generations : y.dependency_generations ≡ z.dependency_generations
  array : length y.resources ≡ length z.resources
  leased : lease y ≡ (if d then f (lease z) else lease z)

pub relet-Entry :
    (f : ℕ → ℕ) (deps k : ℕ) (z : Module)
    → k < module_total
    → 0 < length z.resources
    → Entry f (depends deps k) z (relet f deps 0 module_total k z)
      × ((relet f deps 0 module_total k z).state ≡ z.state)
relet-Entry f deps k z lt some_lease = elim (Bool-cases (depends deps k)) [
  | inl dep ↦
      let test : (leb 0 k && (ltb k (0 + module_total) && depends deps k)) ≡ true =
        ground (arith, dep) in
      rw (test, dep)
        (
          record {
            dependencies = refl;
            generation = refl;
            generations = refl;
            array = length-modify res_lease f z.resources;
            leased = get_or-modify_self res_lease f z.resources 0 some_lease;
          },
          refl,
        )
  | inr free ↦
      let test : (leb 0 k && (ltb k (0 + module_total) && depends deps k)) ≡ false =
        ground (arith, free) in
      rw (test, free)
        (
          record {
            dependencies = refl;
            generation = refl;
            generations = refl;
            array = refl;
            leased = refl;
          },
          refl,
        )
]

-- The entry of the module that starts or stops.
abbrev pub self : Manager → ℕ → Module
self m i = module_at m i

pub has_lease :
    (held : ℕ → ℕ) (m : Manager) (k : ℕ)
    → Ledger held m
    → k < module_total
    → 0 < length (module_at m k).resources
has_lease held m k h klt = omega (arith, h.arrays k klt)
