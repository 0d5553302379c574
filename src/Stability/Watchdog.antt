-- ===== src/Stability/Watchdog.antt =====
-- rtmp_stability.c: the client's calls and the rounds of watchdog_thread.
use rtmpcamera.Prelude.{
  ℕ, Bool, true, false, not, ◌&&◌, Option, none, some, if◌then◌else◌, leb, sub32,
}
use rtmpcamera.Stability.{
  reconnect, State, stopped, running, recovering, is_stopped, is_running, is_failed, Config, Thread,
  absent, asleep, entering, blocked, Monitor, Env, Outcome, done, stuck, attempt_reconnect,
  enter_recovery_mode,
}

-- rtmp_stability_start
unfoldable pub start : Env → Monitor → Option Monitor
start e m =
    if not (is_stopped m.state)
    then some m
    else if m.held
    then none
    else some (record m {
      state = running;
      reconnect_count = 0;
      last_heartbeat = e.now;
      last_response = e.now;
      heartbeat_pending = false;
      watchdog_running = if m.config.use_watchdog then true else m.watchdog_running;
      thread = if m.config.use_watchdog then asleep else m.thread;
    })

-- `pthread_join` with the mutex held: a thread that is asleep wakes, sees `watchdogRunning` cleared
-- and returns; one that is about to lock the mutex never does.
abbrev pub join : Thread → Monitor → Option Monitor
join absent m = some m
join asleep m = some (record m { thread = absent })
join entering m = none
join blocked m = none

-- rtmp_stability_stop
unfoldable pub stop : Monitor → Option Monitor
stop m =
    let joined =
      if m.watchdog_running
      then join m.thread (record m { watchdog_running = false })
      else some m in
    if is_stopped m.state
    then some m
    else if m.held
    then none
    else elim joined [ none ↦ none | some m1 ↦ some (record m1 { state = stopped }) ]

-- rtmp_stability_destroy, up to the release of the monitor.
unfoldable pub destroy : Monitor → Option Monitor
unfolding stop
destroy m = stop m

abbrev pub after_reset : State → State
after_reset recovering = running
after_reset s = s

-- rtmp_stability_reset
unfoldable pub reset_monitor : Env → Monitor → Option Monitor
reset_monitor e m =
    if m.held
    then none
    else some (record m {
      reconnect_count = 0;
      last_heartbeat = e.now;
      last_response = e.now;
      heartbeat_pending = false;
      state = after_reset m.state;
    })

-- rtmp_stability_try_recover
unfoldable pub try_recover : Env → Monitor → Option (Bool × Monitor)
unfolding attempt_reconnect
try_recover e m =
    if not (is_failed m.state)
    then some (false, m)
    else if m.held
    then none
    else some (attempt_reconnect e m)

abbrev of_outcome : Outcome → Option Monitor
of_outcome (done m) = some m
of_outcome (stuck m) = none

-- rtmp_stability_force_reconnect
unfoldable pub force_reconnect : Env → Monitor → Option Monitor
unfolding enter_recovery_mode
force_reconnect e m = if m.held then none else of_outcome (enter_recovery_mode e reconnect m)

unfoldable pub set_config : Config → Monitor → Option Monitor
set_config c m = if m.held then none else some (record m { config = c })

unfoldable pub set_callback : Bool → Monitor → Option Monitor
set_callback present m = if m.held then none else some (record m { has_callback = present })

unfoldable pub send_heartbeat : Env → Monitor → Monitor
send_heartbeat e m =
    if e.sends then record m { last_heartbeat = e.sent_at; heartbeat_pending = true } else m

unfoldable pub check_connection_status : Env → Monitor → Outcome
unfolding enter_recovery_mode
check_connection_status e m =
    if m.heartbeat_pending && leb m.config.watchdog_timeout (sub32 e.checked_at m.last_heartbeat)
    then enter_recovery_mode e m.config.recovery_mode m
    else done m

-- The body of the loop under the mutex, for a monitor that is RUNNING.
unfoldable pub watch : Env → Monitor → Outcome
unfolding send_heartbeat check_connection_status
watch e m =
    let due =
      m.config.use_heartbeat
      && (not m.heartbeat_pending
          && leb m.config.heartbeat_interval (sub32 e.now m.last_heartbeat)) in
    check_connection_status e (if due then send_heartbeat e m else m)

abbrev after_watch : Outcome → Monitor
after_watch (done m) = record m { thread = asleep }
after_watch (stuck m) = record m { thread = blocked; held = true }

-- The thread's test of the loop, when it is asleep.
unfoldable pub wake : Monitor → Monitor
wake m = wake_thread m.thread
  where
    wake_thread : Thread → Monitor
    wake_thread asleep = record m { thread = if m.watchdog_running then entering else absent }
    wake_thread _ = m

-- The loop's body, from the lock to the sleep.
unfoldable pub watchdog_round : Env → Monitor → Monitor
unfolding watch
watchdog_round e m =
    if m.held
    then m
    else if is_running m.state
    then after_watch (watch e m)
    else record m { thread = asleep }

abbrev is_recovering_state : State → Bool
is_recovering_state recovering = true
is_recovering_state _ = false

-- rtmp_stability_is_stable
unfoldable pub is_stable : Monitor → Bool
is_stable m = is_running m.state

-- rtmp_stability_is_recovering
unfoldable pub is_recovering : Monitor → Bool
is_recovering m = is_recovering_state m.state

-- rtmp_stability_get_config
unfoldable pub get_config : Option Monitor → Option Config
get_config none = none
get_config (some m) = some m.config

-- rtmp_stability_get_reconnect_count
unfoldable pub get_reconnect_count : Option Monitor → ℕ
get_reconnect_count none = 0
get_reconnect_count (some m) = m.reconnect_count
