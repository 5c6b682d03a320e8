-- ===== src/Kernel/Pid.antt =====
-- kernel/pid.c: the process identifiers are handed out in order, and never twice.
mod Tests
use spirit_fox_os.Prelude.{
  ◌≤◌, ◌<◌, ◌≡◌, some, get_elem?, arith, ℕ, zero, suc, ◌+◌, ◌-◌, ◌^◌, ◌≤◌, ◌<◌, ◌≡◌, ◌||◌, ltb,
  ◌==◌, if◌then◌else◌, ℤ, pos, sf_no_space, arith, List, [], ◌∷◌,
}

-- INT32_MAX
abbrev pub pid_max : ℕ
pid_max = 2 ^ 31 - 1

-- The counter after the call, and the result. The pointer is the kernel's own variable.
unfoldable pub pid_take : ℕ → ℕ × ℤ
pid_take next =
    let pid = next in
    if pid == 0 || ltb pid_max pid then (next, sf_no_space) else (pid + 1, pos pid)

-- The results of `n` calls in a row, and the counter after them.
unfoldable pub take_many : ℕ → ℕ → ℕ × List ℤ
take_many zero next = (next, [])
take_many (suc n) next =
    let (next', r) = pid_take next in let (last, rs) = take_many n next' in (last, r ∷ rs)

taken_range :
    (n next i p : ℕ)
    → get_elem? (take_many n next).1 i ≡ some (pos p)
    → (next ≤ p) × (0 < p) × (p ≤ pid_max)
unfolding take_many pid_take
taken_range zero next i p q = absurd (cc)
taken_range (suc n) next zero p q = ground arith
taken_range (suc n) next (suc i) p q = ground (arith, taken_range n (pid_take next).0 i p)

-- However often it is called, the identifiers handed out are in range and strictly increase, so no
-- identifier is ever handed out twice.
pub take_many-lt :
    (n next i j p q : ℕ)
    → i < j
    → get_elem? (take_many n next).1 i ≡ some (pos p)
    → get_elem? (take_many n next).1 j ≡ some (pos q)
    → (0 < p) × (p < q) × (q ≤ pid_max)
unfolding take_many pid_take
take_many-lt zero next i j p q lt hp hq = absurd (cc hp)
take_many-lt (suc n) next zero zero p q lt hp hq = absurd (omega arith)
take_many-lt (suc n) next zero (suc j) p q lt hp hq =
    ground (arith, taken_range n (pid_take next).0 j q)
take_many-lt (suc n) next (suc i) zero p q lt hp hq = absurd (omega arith)
take_many-lt (suc n) next (suc i) (suc j) p q lt hp hq =
    take_many-lt n (pid_take next).0 i j p q (omega arith) hp hq
