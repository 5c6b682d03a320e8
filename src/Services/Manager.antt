-- ===== src/Services/Manager.antt =====
-- services/manager.c: the life of the 16 loadable modules. A module leases the modules it depends on
-- from its start to its stop. A failure code leaves the table as it was.
pub mod Leases
pub mod Ledger
pub mod Turns
pub mod Safety
mod Tests
use spirit_fox_os.Prelude.{
  ℕ, zero, suc, ◌+◌, ◌-◌, ◌/◌, ◌%◌, ◌^◌, Bool, true, false, ltb, leb, ◌==◌, not, ◌&&◌, ◌||◌,
  if◌then◌else◌, ℤ, pos, negsuc, sf_ok, sf_invalid, sf_denied, sf_busy, sf_no_space,
  sf_stale_handle, List, [], ◌∷◌, length, get_or, set, modify, replicate, find_index?, Option, none,
  some,
}

pub data ModState : Type 0 where
  discovered verified resolved staged initialized active : ModState
  quiescing draining stopped unloaded failed quarantined : ModState

abbrev pub is_active : ModState → Bool
is_active ModState.active = true
is_active _ = false

abbrev pub is_draining : ModState → Bool
is_draining ModState.draining = true
is_draining _ = false

abbrev pub is_quiescing : ModState → Bool
is_quiescing ModState.quiescing = true
is_quiescing _ = false

abbrev pub is_stopped : ModState → Bool
is_stopped ModState.stopped = true
is_stopped _ = false

abbrev pub is_verified : ModState → Bool
is_verified ModState.verified = true
is_verified _ = false

-- DISCOVERED or UNLOADED: the entry may be used again.
abbrev pub is_unused : ModState → Bool
is_unused ModState.discovered = true
is_unused ModState.unloaded = true
is_unused _ = false

pub record Module : Type 0 where
  pub id : List ℕ
  pub generation : ℕ
  pub state : ModState
  pub pinned : Bool
  pub dependencies : ℕ
  pub resources : List ℕ
  pub dependency_generations : List ℕ

pub record Manager : Type 0 where
  pub modules : List Module
  pub next_generation : ℕ

abbrev pub module_total : ℕ
module_total = 16

abbrev pub res_lease : ℕ
res_lease = 0

abbrev pub res_count : ℕ
res_count = 10

abbrev pub uint32_max : ℕ
uint32_max = 2 ^ 32 - 1

abbrev pub sf_dependency : ℤ
sf_dependency = negsuc 5

abbrev pub sf_draining : ℤ
sf_draining = negsuc 7

abbrev pub no_module : Module
no_module = record {
  id = [];
  generation = 0;
  state = ModState.discovered;
  pinned = false;
  dependencies = 0;
  resources = [];
  dependency_generations = [];
}

abbrev pub module_at : Manager → ℕ → Module
module_at m i = get_or m.modules i no_module

abbrev pub modify_module : ℕ → (Module → Module) → Manager → Manager
modify_module i f m = record m { modules = modify i f m.modules }

-- mask & (1u << j)
abbrev pub depends : ℕ → ℕ → Bool
depends mask j = mask / 2 ^ j % 2 == 1

abbrev pub resource : Module → ℕ → ℕ
resource x r = get_or x.resources r 0

abbrev pub lease : Module → ℕ
lease x = resource x res_lease

abbrev pub provider_generation : Module → ℕ → ℕ
provider_generation x j = get_or x.dependency_generations j 0

abbrev pub in_state : ModState → Module → Module
in_state s x = record x { state = s }

abbrev pub set_resource : ℕ → (ℕ → ℕ) → Module → Module
set_resource r f x = record x { resources = modify r f x.resources }

unfoldable pub registered : Module → Bool
registered x = not (x.generation == 0) && not (is_unused x.state)

-- The loop of sfmod_add over the dependencies: `rounds` of them are left, from `j` on.
unfoldable pub all_registered : List Module → ℕ → ℕ → ℕ → Bool
all_registered modules deps zero j = true
all_registered modules deps (suc rounds) j =
    let rest = all_registered modules deps rounds (j + 1) in
    if depends deps j && not (registered (get_or modules j no_module)) then false else rest

unfoldable pub generations_of : List Module → ℕ → ℕ → ℕ → List ℕ
generations_of modules deps zero j = []
generations_of modules deps (suc rounds) j =
    (if depends deps j then (get_or modules j no_module).generation else 0)
    ∷ generations_of modules deps rounds (j + 1)

abbrev pub fresh : List ℕ → ℕ → Bool → Manager → Module
fresh id deps pinned m = record {
  id = id;
  generation = m.next_generation + 1;
  state = ModState.verified;
  pinned = pinned;
  dependencies = deps;
  resources = replicate res_count 0;
  dependency_generations = generations_of m.modules deps module_total 0;
}

-- `id` has the bytes of the string before its zero byte.
unfoldable pub add : Manager → List ℕ → ℕ → Bool → Manager × ℤ
add m id deps pinned =
    if length id == 0 || leb 64 (length id)
    then (m, sf_invalid)
    else (if leb (2 ^ 16) deps
        then (m, sf_dependency)
        else (if not (all_registered m.modules deps module_total 0)
            then (m, sf_dependency)
            else (if m.next_generation == uint32_max
                then (m, sf_no_space)
                else elim (find_index? (λ (x : Module). is_unused x.state) m.modules) [
                  | none ↦ (m, sf_no_space)
                  | some i ↦ (
                    record {
                      modules = set m.modules i (fresh id deps pinned m);
                      next_generation = m.next_generation + 1;
                    },
                    pos i,
                  )
                ])))

-- The checks of sfmod_start, before anything changes.
unfoldable pub check_start : List Module → Module → ℕ → ℕ → ℕ → ℤ
check_start modules x i zero j = sf_ok
check_start modules x i (suc rounds) j =
    let p = get_or modules j no_module in
    let rest = check_start modules x i rounds (j + 1) in
    if not (depends x.dependencies j)
    then rest
    else (if j == i || (not (is_active p.state) || not (p.generation == provider_generation x j))
        then sf_dependency
        else (if lease p == uint32_max then sf_no_space else rest))

-- A loop that changes the lease count of each provider.
unfoldable pub change_leases : (ℕ → ℕ) → ℕ → ℕ → ℕ → List Module → List Module
change_leases f deps zero j modules = modules
change_leases f deps (suc rounds) j modules =
    change_leases f deps rounds (j + 1)
      (if depends deps j then modify j (set_resource res_lease f) modules else modules)

abbrev pub increment : ℕ → ℕ
increment n = n + 1

abbrev pub decrement : ℕ → ℕ
decrement n = n - 1

-- The states between VERIFIED and ACTIVE are not seen by anyone.
unfoldable pub start : Manager → ℕ → Manager × ℤ
start m i =
    let x = module_at m i in
    let checked = check_start m.modules x i module_total 0 in
    if leb module_total i
    then (m, sf_invalid)
    else (if not (is_verified x.state) && not (is_stopped x.state)
        then (m, sf_invalid)
        else (if leb (2 ^ 16) x.dependencies then (m, sf_dependency) else elim checked [
          | pos n ↦ (
            record m {
              modules = modify i (in_state ModState.active) (
                  change_leases increment x.dependencies module_total 0
                    (modify i (in_state ModState.initialized) m.modules));
            },
            sf_ok,
          )
          | negsuc n ↦ (m, negsuc n)
        ]))

unfoldable pub acquire : Manager → ℕ → ℕ → Manager × ℤ
acquire m i r =
    let x = module_at m i in
    if leb module_total i || leb res_count r
    then (m, sf_invalid)
    else (if is_quiescing x.state || is_draining x.state
        then (m, sf_draining)
        else (if not (is_active x.state)
            then (m, sf_stale_handle)
            else (if resource x r == uint32_max
                then (m, sf_no_space)
                else (modify_module i (set_resource r increment) m, sf_ok))))

unfoldable pub release : Manager → ℕ → ℕ → Manager × ℤ
release m i r =
    if leb module_total i || (leb res_count r || (resource (module_at m i) r == 0))
    then (m, sf_invalid)
    else (modify_module i (set_resource r decrement) m, sf_ok)

unfoldable pub prepare : Manager → ℕ → Manager × ℤ
prepare m i =
    let x = module_at m i in
    if leb module_total i
    then (m, sf_invalid)
    else (if x.pinned
        then (m, sf_denied)
        else (if not (is_active x.state)
            then (m, sf_invalid)
            else (modify_module i (in_state ModState.draining) m, sf_ok)))

unfoldable pub cancel : Manager → ℕ → Manager × ℤ
cancel m i =
    if leb module_total i || not (is_draining (module_at m i).state)
    then (m, sf_invalid)
    else (modify_module i (in_state ModState.active) m, sf_ok)

-- The first resource that is in use, from `r` on.
unfoldable pub in_use : List ℕ → ℕ → Option ℕ
in_use [] r = none
in_use (n ∷ ns) r = let rest = in_use ns (r + 1) in if n == 0 then rest else some r

unfoldable pub check_stop : List Module → Module → ℕ → ℕ → ℤ
check_stop modules x zero j = sf_ok
check_stop modules x (suc rounds) j =
    let p = get_or modules j no_module in
    let rest = check_stop modules x rounds (j + 1) in
    if not (depends x.dependencies j)
    then rest
    else (if not (registered p) || not (p.generation == provider_generation x j)
        then sf_dependency
        else (if lease p == 0 then sf_invalid else rest))

unfoldable pub stop : Manager → ℕ → Manager × ℤ
stop m i =
    let x = module_at m i in
    let checked = check_stop m.modules x module_total 0 in
    if leb module_total i || not (is_draining x.state)
    then (m, sf_invalid)
    else elim (in_use x.resources 0) [
      | some r ↦ (m, if r == res_lease then sf_dependency else sf_busy)
      | none ↦ if leb (2 ^ 16) x.dependencies then (m, sf_dependency) else elim checked [
        | pos n ↦ (
          record m {
            modules =
                modify i (in_state ModState.stopped)
                  (change_leases decrement x.dependencies module_total 0 m.modules);
          },
          sf_ok,
        )
        | negsuc n ↦ (m, negsuc n)
      ]
    ]

unfoldable pub unload : Manager → ℕ → Manager × ℤ
unload m i =
    if leb module_total i || not (is_stopped (module_at m i).state)
    then (m, sf_invalid)
    else (modify_module i (in_state ModState.unloaded) m, sf_ok)
