-- ===== src/Services/Supervisor/Restarts.antt =====
-- What services/supervisor.c promises: a service that keeps failing is started a bounded number of
-- times, and not before its retry time.
use spirit_fox_os.Prelude.{zero, List, ℕ, ℤ, ◌≤◌, pos, ◌∷◌, ◌≡◌, [], ◌+◌, false, sf_ok, arith, ◌⊎◌}
use spirit_fox_os.Services.Supervisor.{
  Supervisor, ℕ, ℤ, failure, was_stable, begin, retry_at, started, tick_max,
}

-- The calls that a running system makes between two commands of the operator.
pub data Event : Type 0 where
  fails begins starts : ℕ → Event

abbrev pub handle : Event → Supervisor → Supervisor × ℤ
handle (fails now) p = failure p now
handle (begins now) p = begin p now
handle (starts now) p = started p now

-- The restarts that the events bring about.
abbrev is_restart : Event → ℤ → ℕ
is_restart (begins now) (pos zero) = 1
is_restart _ _ = 0

unfoldable pub restarts : List Event → Supervisor → ℕ
restarts [] p = 0
restarts (e ∷ es) p = is_restart e (handle e p).1 + restarts es (handle e p).0

-- No failure comes after a stable period.
abbrev IsUnstable : Event → Supervisor → Type 0
IsUnstable (fails now) p = was_stable p now ≡ false
IsUnstable _ p = Unit

unfoldable pub IsCrashLoop : List Event → Supervisor → Type 0
IsCrashLoop [] p = Unit
IsCrashLoop (e ∷ es) p = IsUnstable e p × IsCrashLoop es (handle e p).0

handle-spends :
    (e : Event) (p : Supervisor)
    → IsUnstable e p
    → p.attempts ≤ p.max_attempts
    → ((handle e p).0.attempts ≡ is_restart e (handle e p).1 + p.attempts)
      × ((handle e p).0.attempts ≤ p.max_attempts)
      × ((handle e p).0.max_attempts ≡ p.max_attempts)
unfolding failure begin started
handle-spends (fails now) p u le = ground (arith, u)
handle-spends (begins now) p u le = ground arith
handle-spends (starts now) p u le = ground arith

-- As long as no failure comes after a stable period, the service is started again at most as often as
-- attempts are left, whatever the order and times of failures, attempts and starts.
pub restarts-le :
    (es : List Event) (p : Supervisor)
    → IsCrashLoop es p
    → p.attempts ≤ p.max_attempts
    → restarts es p + p.attempts ≤ p.max_attempts
unfolding restarts IsCrashLoop
restarts-le [] p loop le = omega arith
restarts-le (e ∷ es) p loop le =
    let (spent, bound, same) = handle-spends e p loop.0 le in
    let rest = restarts-le es (handle e p).0 loop.1 (omega arith) in omega arith

-- A restart that is let through after a failure comes no earlier than the retry time after that
-- failure, or at the end of the 64-bit clock.
pub failure-begin :
    (p : Supervisor) (t now : ℕ)
    → (failure p t).1 ≡ sf_ok
    → (begin (failure p t).0 now).1 ≡ sf_ok
    → (t + p.retry_ticks ≤ now) ⊎ (tick_max ≤ now)
unfolding failure begin retry_at
failure-begin p t now failed begun = ground arith
