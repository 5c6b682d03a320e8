-- ===== src/Services/Supervisor.antt =====
-- services/supervisor.c: when a failed service may be started again. A failure code leaves the
-- supervisor as it was.
pub mod Restarts
mod Tests
use spirit_fox_os.Prelude.{
  ℕ, ◌+◌, ◌-◌, ◌^◌, Bool, ltb, leb, ◌==◌, not, ◌&&◌, ◌||◌, if◌then◌else◌, ℤ, sf_ok, sf_invalid,
  sf_would_block, true, false,
}

pub data SupState : Type 0 where
  stopped waiting starting running blocked : SupState

abbrev pub is_waiting : SupState → Bool
is_waiting SupState.waiting = true
is_waiting _ = false

abbrev pub is_starting : SupState → Bool
is_starting SupState.starting = true
is_starting _ = false

abbrev pub is_running : SupState → Bool
is_running SupState.running = true
is_running _ = false

pub record Supervisor : Type 0 where
  pub retry_ticks : ℕ
  pub stable_ticks : ℕ
  pub next_tick : ℕ
  pub running_since : ℕ
  pub max_attempts : ℕ
  pub attempts : ℕ
  pub state : SupState

abbrev pub tick_max : ℕ
tick_max = 2 ^ 64 - 1

-- The pointer is not null.
unfoldable pub init : Supervisor → ℕ → ℕ → ℕ → Supervisor × ℤ
init p attempts retry stable =
    if attempts == 0 || (ltb 16 attempts || (retry == 0 || stable == 0)) then (p, sf_invalid) else (
      record {
        retry_ticks = retry;
        stable_ticks = stable;
        next_tick = 0;
        running_since = 0;
        max_attempts = attempts;
        attempts = 0;
        state = SupState.stopped;
      },
      sf_ok,
    )

unfoldable pub enable : Supervisor → ℕ → Bool → Supervisor
enable p now up = record p {
  attempts = 0;
  state = if up then SupState.running else SupState.waiting;
  running_since = now;
  next_tick = now;
}

unfoldable pub disable : Supervisor → Supervisor
disable p = record p { state = SupState.stopped; attempts = 0; next_tick = 0; running_since = 0 }

-- The service ran long enough for its earlier failures to be forgotten.
unfoldable pub was_stable : Supervisor → ℕ → Bool
was_stable p now =
    is_running p.state && (leb p.running_since now && leb p.stable_ticks (now - p.running_since))

-- now + retry_ticks, up to UINT64_MAX
unfoldable pub retry_at : Supervisor → ℕ → ℕ
retry_at p now = if ltb (tick_max - now) p.retry_ticks then tick_max else now + p.retry_ticks

unfoldable pub failure : Supervisor → ℕ → Supervisor × ℤ
failure p now =
    let attempts = if was_stable p now then 0 else p.attempts in
    if not (is_running p.state) && not (is_starting p.state)
    then (p, sf_invalid)
    else (if leb p.max_attempts attempts
        then (record p { attempts = attempts; state = SupState.blocked; next_tick = 0 }, sf_ok)
        else (
          record p { attempts = attempts; state = SupState.waiting; next_tick = retry_at p now },
          sf_ok,
        ))

unfoldable pub begin : Supervisor → ℕ → Supervisor × ℤ
begin p now =
    if not (is_waiting p.state) || leb p.max_attempts p.attempts
    then (p, sf_invalid)
    else (if ltb now p.next_tick
        then (p, sf_would_block)
        else (record p { attempts = p.attempts + 1; state = SupState.starting }, sf_ok))

unfoldable pub started : Supervisor → ℕ → Supervisor × ℤ
started p now =
    if not (is_starting p.state)
    then (p, sf_invalid)
    else (record p { state = SupState.running; running_since = now }, sf_ok)
