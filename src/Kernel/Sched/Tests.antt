-- ===== src/Kernel/Sched/Tests.antt =====
-- Tests of kernel/sched_policy.c.
use spirit_fox_os.Kernel.Sched.Fairness.{Picks, pick-Picks, pick_aged}
use spirit_fox_os.Prelude.{ℕ, ◌≡◌, refl, pos, some, [], ◌∷◌, ◌≤◌, List, true, arith}
use spirit_fox_os.Kernel.Sched.{SchedEntry, pick, eligible, List, index, true}

abbrev entry : ℕ → ℕ → ℕ → SchedEntry
entry since prio ready = record { ready_since = since; priority = prio; ready = ready }

picks_aged : pick (some (entry 0 1 1 ∷ entry 8 3 0 ∷ entry 9 2 1 ∷ [])) 3 (pos 0) 12 ≡ pos 0
unfolding pick
picks_aged = refl

abbrev three : List SchedEntry
three = entry 0 1 1 ∷ entry 8 3 0 ∷ entry 9 2 1 ∷ []

pick-Picks_example : Picks three 3 (pos 0) 12 (pick (some three) 3 (pos 0) 12)
pick-Picks_example = pick-Picks three 3 (pos 0) 12 (omega arith) (omega arith) refl

may : eligible (entry 0 1 1) ≡ true
unfolding eligible
may = refl

pick_aged_example :
    (s : ℕ) × (1 ≤ s) × (s ≤ 3) × (pick (some three) 3 (pos 0) 12 ≡ pos (index (pos 0) s 3))
pick_aged_example =
    pick_aged three 3 (pos 0) 12 (omega arith) (omega arith) refl 3 (entry 0 1 1) (omega arith)
      (omega arith) refl may (omega arith)
