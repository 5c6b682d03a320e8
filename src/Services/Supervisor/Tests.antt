-- ===== src/Services/Supervisor/Tests.antt =====
-- Tests of services/supervisor.c: two attempts, 100 ticks apart; stable after 1000 ticks.
use spirit_fox_os.Services.Supervisor.{
  Supervisor, begin, failure, init, started, retry_at, SupState, was_stable,
}
use spirit_fox_os.Prelude.{refl, List, ◌+◌, ◌≤◌, ◌≡◌, ◌∷◌, [], sf_ok, arith}
use spirit_fox_os.Services.Supervisor.Restarts.{Event, restarts, restarts-le, IsCrashLoop}

abbrev idle : Supervisor
idle = record {
  retry_ticks = 0;
  stable_ticks = 0;
  next_tick = 0;
  running_since = 0;
  max_attempts = 0;
  attempts = 0;
  state = SupState.stopped;
}

abbrev service : Supervisor
service = record idle {
  retry_ticks = 100;
  stable_ticks = 1000;
  max_attempts = 2;
  state = SupState.running;
}

configured : init idle 2 100 1000 ≡ (record service { state = SupState.stopped }, sf_ok)
unfolding init
configured = refl

abbrev crashes : List Event
crashes =
    Event.fails 5
    ∷ Event.begins 20
    ∷ Event.begins 105
    ∷ Event.starts 106
    ∷ Event.fails 107
    ∷ Event.begins 300
    ∷ Event.fails 301
    ∷ Event.begins 500
    ∷ []

restarts_twice : restarts crashes service ≡ 2
unfolding restarts failure begin started retry_at was_stable
restarts_twice = refl

crashes-IsCrashLoop : IsCrashLoop crashes service
unfolding IsCrashLoop failure begin started retry_at was_stable
crashes-IsCrashLoop = (refl, (tt, (tt, (tt, (refl, (tt, (refl, (tt, tt))))))))

restarts-le_example : restarts crashes service + 0 ≤ 2
restarts-le_example = restarts-le crashes service crashes-IsCrashLoop (omega arith)

fails_first : (failure service 5).1 ≡ sf_ok
unfolding failure retry_at was_stable
fails_first = refl

begins_then : (begin (failure service 5).0 105).1 ≡ sf_ok
unfolding begin failure retry_at was_stable
begins_then = refl
