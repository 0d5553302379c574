-- ===== src/Stability/Tests.antt =====
-- Runs of rtmp_stability.c on concrete monitors, and the theorems at them.
use rtmpcamera.Prelude.{◌≡◌, ◌≤◌, refl, true, false, none, some, List, [], ◌∷◌, arith, run_all}
use rtmpcamera.Stability.{
  reset, running, failed, recovering, Monitor, Env, asleep, entering, create, exit_recovery_mode,
  dropped, dialled,
}
use rtmpcamera.Stability.Watchdog.{
  start, stop, reset_monitor, force_reconnect, set_config, get_config, get_reconnect_count,
  set_callback, watch, wake, is_stable, is_recovering, send_heartbeat, check_connection_status,
  watchdog_round,
}
use rtmpcamera.Stability.Heartbeat.{rounds, AllLate, rounds-pending}
use rtmpcamera.Stability.Recovery.{
  step, starts, wakes, stops, watchdog_round_stuck, run-create-IsDefault,
}
use rtmpcamera.Stability.Recovery

-- The network works; each clock read is 20 seconds on.
abbrev env : Env
env = record { sends = true; connects = true; now = 60000; sent_at = 60000; checked_at = 80000 }

abbrev waiting : Monitor
waiting = record create {
  state = running;
  last_heartbeat = 60000;
  heartbeat_pending = true;
  thread = entering;
  watchdog_running = true;
}

abbrev resetting : Monitor
resetting = record waiting { config = record create.config { recovery_mode = reset } }

abbrev four : List Env
four = env ∷ env ∷ env ∷ env ∷ []

-- Three reconnections, and no fourth one.
rounds-pending_example :
    ((rounds four waiting).state ≡ failed)
    × ((rounds four waiting).link_calls
        ≡ dialled true ∷ dropped ∷ dialled true ∷ dropped ∷ dialled true ∷ dropped ∷ [])
unfolding create AllLate
rounds-pending_example =
    rounds-pending four waiting refl refl refl refl refl
      (omega arith, (omega arith, (omega arith, (omega arith, tt)))) (omega arith) (omega arith)
      (omega arith)

watchdog_round_stuck_run :
    (stop (watchdog_round env resetting) ≡ none)
    × (reset_monitor env (watchdog_round env resetting) ≡ none)
    × (force_reconnect env (watchdog_round env resetting) ≡ none)
    × (set_config create.config (watchdog_round env resetting) ≡ none)
    × (set_callback true (watchdog_round env resetting) ≡ none)
    × (watchdog_round env (watchdog_round env resetting) ≡ watchdog_round env resetting)
unfolding create
watchdog_round_stuck_run =
    watchdog_round_stuck env env resetting create.config true refl refl refl refl (omega arith)

-- A running monitor sends its first heartbeat.
abbrev beaten : Monitor
beaten = record create {
  state = running;
  last_heartbeat = 60000;
  last_response = 10;
  heartbeat_pending = true;
  watchdog_running = true;
  thread = asleep;
}

abbrev early : Env
early = record env { now = 10 }

abbrev checks_soon : Env
checks_soon = record env { checked_at = 60001 }

run-beaten :
    run_all step (starts early ∷ wakes ∷ Recovery.rounds checks_soon ∷ []) create ≡ some beaten
unfolding run_all step start wake watchdog_round watch send_heartbeat check_connection_status create
run-beaten = refl

run-create-IsDefault_run : (beaten.held ≡ false) × (beaten.reconnect_count ≤ 3)
run-create-IsDefault_run =
    run-create-IsDefault (starts early ∷ wakes ∷ Recovery.rounds checks_soon ∷ []) beaten run-beaten

-- A stop while the thread is about to lock the mutex waits for ever.
stop-entering : stop waiting ≡ none
unfolding stop create
stop-entering = refl

exit_recovery_mode-recovering :
    (exit_recovery_mode false (record create { state = recovering })).state ≡ failed
unfolding exit_recovery_mode create
exit_recovery_mode-recovering = refl

waiting-is_stable : (is_stable waiting ≡ true) × (is_recovering waiting ≡ false)
unfolding is_stable is_recovering create
waiting-is_stable = (refl, refl)

-- The getters are total: NULL has no configuration and a count of 0.
getters-create :
    (get_config (some resetting) ≡ some resetting.config)
    × (get_config none ≡ none)
    × (get_reconnect_count (some (record create { reconnect_count = 2 })) ≡ 2)
    × (get_reconnect_count none ≡ 0)
unfolding get_config get_reconnect_count
getters-create = (refl, refl, refl, refl)
