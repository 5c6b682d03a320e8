-- ===== src/Services/Manager/Safety.antt =====
-- services/manager.c: every operation keeps the ledger, so no module goes away while it is used.
use spirit_fox_os.Prelude.{
  ℕ, zero, suc, ◌+◌, ◌<◌, if◌then◌else◌, ◌≡◌, ◌≢◌, refl, sym, ap, ◌∙◌, Bool, true, false, leb, ◌==◌,
  not, ◌&&◌, ◌||◌, ℤ, pos, negsuc, sf_ok, List, [], ◌∷◌, length, get_or, set, modify, find_index?,
  count_if, arith, Bool-cases, Option-cases, none, inl, inr, ◌⊎◌, length-modify, get_or-modify_ne,
  get_or-modify_self, find_index?-get_or, ◌^◌,
}
use spirit_fox_os.Services.Manager.{
  Module, Manager, module_at, module_total, res_count, no_module, is_draining, is_verified,
  is_stopped, is_unused, res_lease, check_start, check_stop, fresh, all_registered, uint32_max, add,
  start, acquire, release, prepare, cancel, stop, unload, in_use,
}
use spirit_fox_os.Services.Manager.Leases.{
  live, uses, count_if-modify, count_if-some, check_start-Provides,
}
use spirit_fox_os.Services.Manager.Ledger.{
  Ledger, is_ok, taken, returned, acquire_lease-Ledger, release_lease-Ledger, unless,
  acquire-Ledger, release-Ledger, prepare-Ledger, cancel-Ledger, unload-Ledger,
}
use spirit_fox_os.Services.Manager.Turns.Starts.{after_start-Ledger}
use spirit_fox_os.Services.Manager.Turns.Stops.{after_stop-Ledger}

Sign-cases : (z : ℤ) → ((n : ℕ) × (z ≡ pos n)) ⊎ ((n : ℕ) × (z ≡ negsuc n))
Sign-cases (pos n) = inl (n, refl)
Sign-cases (negsuc n) = inr (n, refl)

start-Ledger : (held : ℕ → ℕ) (m : Manager) (i : ℕ) → Ledger held m → Ledger held (start m i).0
unfolding start
start-Ledger held m i h =
    let x = module_at m i in
    let checks = check_start m.modules x i module_total 0 in
    unless held m (leb module_total i) _ _ h (λ inside.
      unless held m (not (is_verified x.state) && not (is_stopped x.state)) _ _ h (λ idle.
        unless held m (leb (2 ^ 16) x.dependencies) _ _ h (λ small. elim (Sign-cases checks) [
          | inl (n, e) ↦ rw e (
              after_start-Ledger held m i (ground (arith, inside)) h (ground (arith, idle))
                (λ k klt d.
                  check_start-Provides m.modules x i 0 module_total n k e (omega arith) klt d))
          | inr (n, e) ↦ rw e h
        ])))

in_use-lease : (xs : List ℕ) → in_use xs 0 ≡ none → get_or xs 0 0 ≡ 0
unfolding in_use
in_use-lease [] e = refl
in_use-lease (n ∷ ns) e = ground (arith, e)

stop-Ledger : (held : ℕ → ℕ) (m : Manager) (i : ℕ) → Ledger held m → Ledger held (stop m i).0
unfolding stop
stop-Ledger held m i h =
    let x = module_at m i in
    let checks = check_stop m.modules x module_total 0 in
    unless held m (leb module_total i || not (is_draining x.state)) _ _ h (λ drains.
      elim (Option-cases (in_use x.resources 0)) [
        | inr (r, used) ↦ rw used h
        | inl idle ↦ rw idle (
            unless held m (leb (2 ^ 16) x.dependencies) _ _ h (λ small. elim (Sign-cases checks) [
              | inl (n, e) ↦ rw e (
                  after_stop-Ledger held m i (ground (arith, drains)) h (ground (arith, drains))
                    (in_use-lease x.resources idle))
              | inr (n, e) ↦ rw e h
            ]))
      ])

-- In a table whose ledger holds, while a running module depends on a module, a stop of the latter is
-- refused and changes nothing.
pub stop-Refused :
    (held : ℕ → ℕ) (m : Manager) (i k : ℕ)
    → Ledger held m
    → i < module_total
    → uses i (module_at m k) ≡ true
    → ((stop m i).0 ≡ m) × ((stop m i).1 ≢ sf_ok)
unfolding stop
stop-Refused held m i k h lt user =
    let x = module_at m i in
    let leases = h.counted i lt in
    let some_user = count_if-some (uses i) k m.modules no_module refl user in
    elim (Bool-cases (leb module_total i || not (is_draining x.state))) [
      | inl early ↦ rw (early, stop) (refl, λ q. absurd (cc q))
      | inr drains ↦ elim (Option-cases (in_use x.resources 0)) [
        | inl idle ↦ absurd (omega (arith, leases, some_user, in_use-lease x.resources idle))
        | inr (r, used) ↦ elim (Bool-cases (r == res_lease)) [
          | inl leased ↦ rw (drains, stop, used, leased) (refl, λ q. absurd (cc q))
          | inr other ↦ rw (drains, stop, used, other) (refl, λ q. absurd (cc q))
        ]
      ]
    ]

set-modify : (xs : List Module) (i : ℕ) (v : Module) → set xs i v ≡ modify i (λ x. v) xs
set-modify [] i v = refl
set-modify (x ∷ xs) zero v = refl
set-modify (x ∷ xs) (suc i) v = ap (◌∷◌ x) (set-modify xs i v)

count_if-none :
    (j : ℕ) (xs : List Module)
    → ((k : ℕ) → k < length xs → uses j (get_or xs k no_module) ≡ false)
    → count_if (uses j) xs ≡ 0
count_if-none j [] h = refl
count_if-none j (x ∷ xs) h =
    rw (h 0 (omega arith)) (omega (arith, count_if-none j xs (λ k lt. h (suc k) (omega arith))))

-- A new module takes an entry that no running module depends on.
module _ (held : ℕ → ℕ) (m : Manager) (i : ℕ) (x : Module) (h : Ledger held m)
    (lt : i < module_total) where
  abbrev after_add : Manager
  after_add = record {
    modules = modify i (λ y. x) m.modules;
    next_generation = m.next_generation + 1;
  }

  add_other : (k : ℕ) → k ≢ i → module_at after_add k ≡ module_at m k
  add_other k ne = get_or-modify_ne i k (λ y. x) m.modules no_module (λ q. ne (sym q))

  add_self : module_at after_add i ≡ x
  add_self = get_or-modify_self i (λ y. x) m.modules no_module (rw h.size lt)

  after_add-Ledger :
      live (module_at m i).state ≡ false
      → live x.state ≡ false
      → length x.resources ≡ res_count
      → Ledger held after_add
  after_add-Ledger dead asleep array = record {
    size = length-modify i (λ y. x) m.modules ∙ h.size;
    arrays = λ k klt. elim (Bool-cases (k == i)) [
      | inl here ↦ let same : k ≡ i = ground arith in rw (same, add_self) array
      | inr away ↦ rw (add_other k (λ q. absurd (ground (arith, q)))) (h.arrays k klt)
    ];
    counted = λ j jlt.
        let counts =
          rw (dead, asleep) at
            (count_if-modify (uses j) (λ y. x) i m.modules no_module (rw h.size lt)) in
        elim (Bool-cases (j == i)) [
          | inl here ↦
              let same : j ≡ i = ground arith in
              let nobody = count_if-none i m.modules (λ k klt.
                elim (Bool-cases (uses i (module_at m k))) [
                  | inl user ↦ absurd (cc (sym (h.bound k i (rw h.size at klt) lt user).0 ∙ dead))
                  | inr other ↦ other
                ]) in
              omega (arith, counts, rw (sym same) at nobody, rw (sym same) at (h.asleep i lt dead))
          | inr away ↦
              let there = add_other j (λ q. absurd (ground (arith, q))) in
              rw there (omega (arith, counts, h.counted j jlt))
        ];
    asleep = λ j jlt dead'. elim (Bool-cases (j == i)) [
      | inl here ↦ let same : j ≡ i = ground arith in rw same (h.asleep i lt dead)
      | inr away ↦ h.asleep j jlt (rw (add_other j (λ q. absurd (ground (arith, q)))) at dead')
    ];
    bound = λ k j klt jlt u. elim (Bool-cases (k == i)) [
      | inl here ↦ let same : k ≡ i = ground arith in absurd (cc (rw (same, add_self, asleep) at u))
      | inr away ↦
          let there = add_other k (λ q. absurd (ground (arith, q))) in
          let (runs, gen) = h.bound k j klt jlt (rw there at u) in
          let other = add_other j (λ q. absurd (cc (sym (rw q at runs) ∙ dead))) in
          rw (there, other) (runs, gen)
    ];
  }

add-Ledger :
    (held : ℕ → ℕ) (m : Manager) (id : List ℕ) (deps : ℕ) (pinned : Bool)
    → Ledger held m
    → Ledger held (add m id deps pinned).0
unfolding add
add-Ledger held m id deps pinned h =
    unless held m (length id == 0 || leb 64 (length id)) _ _ h (λ p.
      unless held m (leb (2 ^ 16) deps) _ _ h (λ q.
        unless held m (not (all_registered m.modules deps module_total 0)) _ _ h (λ r.
          unless held m (m.next_generation == uint32_max) _ _ h (λ s.
            elim (Option-cases (find_index? (λ (x : Module). is_unused x.state) m.modules)) [
              | inl full ↦ rw full h
              | inr (i, e) ↦
                  let (lt, unused) =
                    find_index?-get_or (λ (x : Module). is_unused x.state) i m.modules no_module
                      e in
                  rw (e, set-modify m.modules i (fresh id deps pinned m))
                    (after_add-Ledger held m i (fresh id deps pinned m) h (rw h.size at lt)
                      (ground (arith, unused)) refl refl)
            ]))))

-- The operations that the clients of the table call, in any order.
pub data Operation : Type 0 where
  adds : List ℕ → ℕ → Bool → Operation
  starts : ℕ → Operation
  acquires : ℕ → ℕ → Operation
  releases : ℕ → ℕ → Operation
  prepares : ℕ → Operation
  cancels : ℕ → Operation
  stops : ℕ → Operation
  unloads : ℕ → Operation

abbrev pub perform : Operation → Manager → Manager × ℤ
perform (adds id deps pinned) m = add m id deps pinned
perform (starts i) m = start m i
perform (acquires i r) m = acquire m i r
perform (releases i r) m = release m i r
perform (prepares i) m = prepare m i
perform (cancels i) m = cancel m i
perform (stops i) m = stop m i
perform (unloads i) m = unload m i

-- The leases that clients hold afterwards: an acquire that succeeds adds one, a release takes one off.
abbrev pub held_after : Operation → Manager → (ℕ → ℕ) → ℕ → ℕ
held_after (acquires i r) m held =
    if r == res_lease && is_ok (acquire m i r).1 then taken held i else held
held_after (releases i r) m held = if r == res_lease then returned held i else held
held_after (adds id deps pinned) m held = held
held_after (starts i) m held = held
held_after (prepares i) m held = held
held_after (cancels i) m held = held
held_after (stops i) m held = held
held_after (unloads i) m held = held

-- A client gives back only a lease that it holds.
abbrev pub GivesOwn : (ℕ → ℕ) → Operation → Type 0
GivesOwn held (releases i r) = r ≡ res_lease → 0 < held i
GivesOwn held (acquires i r) = Unit
GivesOwn held (adds id deps pinned) = Unit
GivesOwn held (starts i) = Unit
GivesOwn held (prepares i) = Unit
GivesOwn held (cancels i) = Unit
GivesOwn held (stops i) = Unit
GivesOwn held (unloads i) = Unit

-- Every operation, successful or not, keeps the ledger, if a lease is given back only by a client that
-- holds one: each entry has at least as many leases as running modules depend on it and clients hold;
-- no client holds a lease of a module that does not run; and what a running module depends on runs, in
-- the same generation.
pub perform-Ledger :
    (held : ℕ → ℕ) (o : Operation) (m : Manager)
    → GivesOwn held o
    → Ledger held m
    → Ledger (held_after o m held) (perform o m).0
perform-Ledger held (adds id deps pinned) m own h = add-Ledger held m id deps pinned h
perform-Ledger held (starts i) m own h = start-Ledger held m i h
perform-Ledger held (acquires i r) m own h = elim (Bool-cases (r == res_lease)) [
  | inl leased ↦
      let same : r ≡ res_lease = ground arith in rw (leased, same) (acquire_lease-Ledger held m i h)
  | inr other ↦ rw other (acquire-Ledger held m i r (λ q. absurd (ground (arith, q))) h)
]
perform-Ledger held (releases i r) m own h = elim (Bool-cases (r == res_lease)) [
  | inl leased ↦
      let same : r ≡ res_lease = ground arith in
      rw (leased, same) (release_lease-Ledger held m i (own same) h)
  | inr other ↦ rw other (release-Ledger held m i r (λ q. absurd (ground (arith, q))) h)
]
perform-Ledger held (prepares i) m own h = prepare-Ledger held m i h
perform-Ledger held (cancels i) m own h = cancel-Ledger held m i h
perform-Ledger held (stops i) m own h = stop-Ledger held m i h
perform-Ledger held (unloads i) m own h = unload-Ledger held m i h
