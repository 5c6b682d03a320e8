-- ===== src/Kernel/Pid/Tests.antt =====
-- Tests of kernel/pid.c.
use spirit_fox_os.Prelude.{refl}
use spirit_fox_os.Prelude.{get_elem?, ◌<◌, ◌≡◌, some, ◌≤◌, ◌∷◌, arith, sf_no_space, []}
use spirit_fox_os.Kernel.Pid.{
  take_many-lt, pid_max, pid_take, take_many, ◌<◌, ◌≡◌, get_elem?, pos, some, arith, sf_no_space,
  [],
}

first : get_elem? (take_many 4 3).1 0 ≡ some (pos 3)
unfolding take_many pid_take
first = refl

third : get_elem? (take_many 4 3).1 2 ≡ some (pos 5)
unfolding take_many pid_take
third = refl

take_many-lt_example : (0 < 3) × (3 < 5) × (5 ≤ pid_max)
take_many-lt_example = take_many-lt 4 3 0 2 3 5 (omega arith) first third

-- The last identifier, and then no more.
runs_out : (take_many 3 0x7ffffffe).1 ≡ pos 0x7ffffffe ∷ pos 0x7fffffff ∷ sf_no_space ∷ []
unfolding take_many pid_take
runs_out = refl
