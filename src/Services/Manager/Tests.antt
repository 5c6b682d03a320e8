-- ===== src/Services/Manager/Tests.antt =====
-- Tests of services/manager.c: two modules, and the second depends on the first.
use spirit_fox_os.Prelude.{
  ℕ, ◌≡◌, ◌≢◌, ◌<◌, refl, true, false, [], ◌∷◌, replicate, All-replicate, All-get_or_lt, arith,
  sf_ok, length,
}
use spirit_fox_os.Services.Manager.{
  Module, Manager, module_at, no_module, module_total, res_count, add, start, stop, acquire,
  registered, all_registered, generations_of, check_start, change_leases,
}
use spirit_fox_os.Services.Manager.Leases.{uses, live}
use spirit_fox_os.Services.Manager.Ledger.{Ledger}
use spirit_fox_os.Services.Manager.Safety.{
  Operation, perform, held_after, perform-Ledger, stop-Refused,
}

abbrev unused_entry : Module
unused_entry = record no_module { resources = replicate res_count 0 }

abbrev empty_table : Manager
empty_table = record { modules = replicate module_total unused_entry; next_generation = 0 }

abbrev IsEntry : Module → Type 0
IsEntry x = (length x.resources ≡ res_count) × (live x.state ≡ false)

entries : (i : ℕ) → i < module_total → IsEntry (module_at empty_table i)
entries i lt =
    All-get_or_lt IsEntry empty_table.modules i no_module
      (All-replicate IsEntry module_total unused_entry (refl, refl)) lt

abbrev none_held : ℕ → ℕ
none_held i = 0

empty_table-Ledger : Ledger none_held empty_table
empty_table-Ledger = record {
  size = refl;
  arrays = λ i lt. (entries i lt).0;
  counted = λ j lt. omega arith;
  asleep = λ j lt dead. refl;
  bound = λ i j ilt jlt u. absurd (cc (rw ((entries i ilt).1) at u));
}

abbrev first_runs : Manager
first_runs =
    (perform (Operation.starts 0) (perform (Operation.adds (97 ∷ []) 0 false) empty_table).0).0

abbrev both_run : Manager
both_run =
    (perform (Operation.starts 1) (perform (Operation.adds (98 ∷ []) 1 false) first_runs).0).0

first_runs-Ledger : Ledger none_held first_runs
first_runs-Ledger =
    perform-Ledger none_held (Operation.starts 0)
      (perform (Operation.adds (97 ∷ []) 0 false) empty_table).0 tt
      (perform-Ledger none_held (Operation.adds (97 ∷ []) 0 false) empty_table tt
        empty_table-Ledger)

both_run-Ledger : Ledger none_held both_run
both_run-Ledger =
    perform-Ledger none_held (Operation.starts 1)
      (perform (Operation.adds (98 ∷ []) 1 false) first_runs).0 tt
      (perform-Ledger none_held (Operation.adds (98 ∷ []) 1 false) first_runs tt first_runs-Ledger)

-- A client takes a lease of the first module, beside that of the second, and gives it back.
abbrev one_held : ℕ → ℕ
one_held = held_after (Operation.acquires 0 0) both_run none_held

abbrev leased : Manager
leased = (perform (Operation.acquires 0 0) both_run).0

one_held-lem : one_held 0 ≡ 1
unfolding acquire add start registered all_registered generations_of check_start change_leases
one_held-lem = refl

perform-Ledger_example :
    Ledger
      (held_after (Operation.releases 0 0) leased one_held)
      (perform (Operation.releases 0 0) leased).0
perform-Ledger_example =
    perform-Ledger one_held (Operation.releases 0 0) leased (λ e. omega (arith, one_held-lem))
      (perform-Ledger none_held (Operation.acquires 0 0) both_run tt both_run-Ledger)

second_uses_first : uses 0 (module_at both_run 1) ≡ true
unfolding add start registered all_registered generations_of check_start change_leases
second_uses_first = refl

stop-Refused_example : ((stop both_run 0).0 ≡ both_run) × ((stop both_run 0).1 ≢ sf_ok)
stop-Refused_example =
    stop-Refused none_held both_run 0 1 both_run-Ledger (omega arith) second_uses_first
