-- ===== src/Stability/Recovery.antt =====
-- rtmp_stability.c: the mode RESET, and the bounds over any sequence of operations.
use rtmpcamera.Prelude.{
  ◌≤◌, ◌≡◌, refl, Bool, true, false, Option, none, some, List, arith, sub32, ◌>>=◌, OptionAll,
  run_all, run_all-keeps,
}
use rtmpcamera.Stability.{
  reconnect, reset, running, recovering, Config, Monitor, Env, Outcome, done, stuck, create,
  attempt_reconnect, recover, enter_recovery_mode,
}
use rtmpcamera.Stability.Watchdog.{
  start, stop, reset_monitor, try_recover, force_reconnect, set_config, set_callback, watch,
  send_heartbeat, check_connection_status, wake, watchdog_round,
}

abbrev IsStuck : Outcome → Type 0
IsStuck (done m) = ⊥
IsStuck (stuck m) = m.state ≡ recovering

watch-IsStuck :
    (e : Env) (m : Monitor)
    → m.state ≡ running
    → m.heartbeat_pending ≡ true
    → m.config.recovery_mode ≡ reset
    → m.config.watchdog_timeout ≤ sub32 e.checked_at m.last_heartbeat
    → IsStuck (watch e m)
unfolding watch check_connection_status enter_recovery_mode recover
watch-IsStuck e m s p r h = ground arith

round-held :
    (e : Env) (m : Monitor)
    → m.held ≡ false
    → m.state ≡ running
    → m.heartbeat_pending ≡ true
    → m.config.recovery_mode ≡ reset
    → m.config.watchdog_timeout ≤ sub32 e.checked_at m.last_heartbeat
    → ((watchdog_round e m).held ≡ true) × ((watchdog_round e m).state ≡ recovering)
unfolding watchdog_round
round-held e m f s p r h = ground (arith, watch-IsStuck e m s p r h)

held_waits :
    (later : Env) (m : Monitor) (c : Config) (present : Bool)
    → m.held ≡ true
    → m.state ≡ recovering
    → (stop m ≡ none)
      × (reset_monitor later m ≡ none)
      × (force_reconnect later m ≡ none)
      × (set_config c m ≡ none)
      × (set_callback present m ≡ none)
      × (watchdog_round later m ≡ m)
unfolding stop reset_monitor force_reconnect set_config set_callback watchdog_round
held_waits later m c present h s =
    (ground arith, ground arith, ground arith, ground arith, ground arith, ground arith)

-- A recovery in mode RESET deadlocks: the watchdog calls rtmp_stability_reset with the mutex held, waits
-- for itself, and stop, reset, force_reconnect, set_config and set_callback wait for ever; later rounds
-- change nothing.
pub watchdog_round_stuck :
    (e later : Env) (m : Monitor) (c : Config) (present : Bool)
    → m.held ≡ false
    → m.state ≡ running
    → m.heartbeat_pending ≡ true
    → m.config.recovery_mode ≡ reset
    → m.config.watchdog_timeout ≤ sub32 e.checked_at m.last_heartbeat
    → (stop (watchdog_round e m) ≡ none)
      × (reset_monitor later (watchdog_round e m) ≡ none)
      × (force_reconnect later (watchdog_round e m) ≡ none)
      × (set_config c (watchdog_round e m) ≡ none)
      × (set_callback present (watchdog_round e m) ≡ none)
      × (watchdog_round later (watchdog_round e m) ≡ watchdog_round e m)
watchdog_round_stuck e later m c present f s p r h =
    let (held, state) = round-held e m f s p r h in
    held_waits later (watchdog_round e m) c present held state

pub data Op : Type 0 where
  starts resets recovers forces rounds : Env → Op
  stops wakes : Op
  sets_callback : Bool → Op

-- `none`: the caller waits for ever.
unfoldable pub step : Op → Monitor → Option Monitor
unfolding start stop reset_monitor try_recover force_reconnect set_callback wake watchdog_round
step (starts e) m = start e m
step (resets e) m = reset_monitor e m
step (recovers e) m = try_recover e m >>= λ r. some r.1
step (forces e) m = force_reconnect e m
step (rounds e) m = some (watchdog_round e m)
step stops m = stop m
step wakes m = some (wake m)
step (sets_callback present) m = set_callback present m

abbrev IsDefault : Monitor → Type 0
IsDefault m =
    (m.held ≡ false)
    × (m.config.recovery_mode ≡ reconnect)
    × (m.config.max_reconnect_attempts ≡ 3)
    × (m.reconnect_count ≤ 3)

abbrev OutcomeDefault : Outcome → Type 0
OutcomeDefault (done m) = IsDefault m
OutcomeDefault (stuck m) = ⊥

enter-Default :
    (e : Env) (m : Monitor) → IsDefault m → OutcomeDefault (enter_recovery_mode e reconnect m)
unfolding enter_recovery_mode recover attempt_reconnect
enter-Default e m d = ground arith

watch-Default : (e : Env) (m : Monitor) → IsDefault m → OutcomeDefault (watch e m)
unfolding watch send_heartbeat check_connection_status
watch-Default e m d =
    let beaten = record m { last_heartbeat = e.sent_at; heartbeat_pending = true } in
    rw d.1 (ground (arith, enter-Default e m d, enter-Default e beaten d))

step-Default : (op : Op) (m : Monitor) → IsDefault m → OptionAll IsDefault (step op m)
unfolding step start stop reset_monitor try_recover attempt_reconnect set_callback wake
    force_reconnect watchdog_round
step-Default (starts e) m d = ground arith
step-Default (resets e) m d = ground arith
step-Default (recovers e) m d = ground arith
step-Default (forces e) m d = ground (arith, enter-Default e m d)
step-Default (rounds e) m d = ground (arith, watch-Default e m d)
step-Default stops m d = ground arith
step-Default wakes m d = ground arith
step-Default (sets_callback present) m d = ground arith

-- In any sequence of calls and rounds on a new monitor whose configuration is left alone, the
-- watchdog never holds the mutex between its rounds, and the count of reconnections is at most 3.
pub run-create-IsDefault :
    (ops : List Op) (m : Monitor)
    → run_all step ops create ≡ some m
    → (m.held ≡ false) × (m.reconnect_count ≤ 3)
unfolding create
run-create-IsDefault ops m e =
    let d =
      run_all-keeps step IsDefault step-Default ops create m (refl, refl, refl, omega arith) e in
    (d.0, d.3)
