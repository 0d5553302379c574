-- ===== src/Failover/Health.antt =====
-- rtmp_failover.c: the operations under the mutex, and the rounds of the health check thread.
use rtmpcamera.Prelude.{
  ◌+◌, Bool, true, false, not, ◌&&◌, Option, none, some, ◌∷◌, if◌then◌else◌, ltb, leb, u32, sub32,
}
use rtmpcamera.Failover.{
  FailoverType, no_failover, server, network, local, State, idle, active, switching, failed,
  is_active, is_idle, Config, Status, Thread, absent, asleep, entering, blocked, Handler, Env,
  switch_server, switch_network, interfaces, start_local_recording, is_network_available,
}

-- The switch over the type: the result and the status behind.
unfoldable pub switch_type : Env → FailoverType → Config → Status → Bool × Status
switch_type e server c st =
    if not c.enable_server
    then (false, st)
    else elim (switch_server c.switch_timeout e.attempts 0 c.backup_servers) [
      | none ↦ (false, st)
      | some name ↦ (true, record st { current_server = name })
    ]
switch_type e network c st =
    if not c.enable_network
    then (false, st)
    else elim (switch_network c.switch_timeout e.attempts 0 st.current_network interfaces) [
      | none ↦ (false, st)
      | some name ↦ (true, record st { current_network = name })
    ]
switch_type e local c st = if not c.enable_local then (false, st) else (start_local_recording c, st)
switch_type e no_failover c st = (false, st)

-- The end of rtmp_failover_trigger, with the switch's result.
unfoldable pub conclude : Env → FailoverType → Handler → Bool × Status → Bool × Handler
conclude e type h (success, st) =
    let ended =
      if success
      then record st { state = active; last_switch_time = e.now }
      else record st { state = failed } in
    let logged = if h.has_callback then (type, success) ∷ h.calls else h.calls in
    (success, record h { status = ended; calls = logged })

-- rtmp_failover_trigger behind the lock
unfoldable pub trigger_locked : Env → FailoverType → Handler → Bool × Handler
unfolding switch_type conclude
trigger_locked e type h =
    let begun = record h.status {
      state = switching;
      current_type = type;
      switch_attempts = u32 (h.status.switch_attempts + 1);
    } in
    if is_active h.status.state && ltb h.status.switch_attempts h.config.max_switch_attempts
    then conclude e type h (switch_type e type h.config begun)
    else (false, h)

unfoldable pub trigger : Env → FailoverType → Handler → Option (Bool × Handler)
unfolding trigger_locked
trigger e type h = if h.held then none else some (trigger_locked e type h)

unfoldable pub start : Env → Handler → Option Handler
start e h =
    if h.held
    then none
    else if not (is_idle h.status.state)
    then some h
    else some (record h {
      status = record h.status {
        state = active;
        switch_attempts = 0;
        last_switch_time = e.now;
        health_check_time = e.now;
      };
      thread_running = true;
      thread = asleep;
    })

-- `pthread_join` with the mutex held: a thread that is asleep wakes, sees `threadRunning` cleared and
-- returns; one that is about to lock the mutex never does.
unfoldable pub stop : Handler → Option Handler
stop h = if h.held then none else if is_idle h.status.state then some h else stop_thread h.thread
  where
    stopped : Handler
    stopped = record h {
      thread_running = false;
      thread = absent;
      status = record h.status { state = idle; current_type = no_failover };
    }

    stop_thread : Thread → Option Handler
    stop_thread absent = some stopped
    stop_thread asleep = some stopped
    stop_thread entering = none
    stop_thread blocked = none

abbrev pub after_reset : State → State
after_reset failed = active
after_reset s = s

unfoldable pub reset : Env → Handler → Option Handler
reset e h =
    if h.held
    then none
    else some (record h {
      status = record h.status {
        state = after_reset h.status.state;
        switch_attempts = 0;
        last_switch_time = e.now;
        health_check_time = e.now;
        is_healthy = true;
      };
    })

unfoldable pub set_config : Config → Handler → Option Handler
set_config c h = if h.held then none else some (record h { config = c })

unfoldable pub set_healthy : Bool → Handler → Option Handler
set_healthy healthy h =
    if h.held then none else some (record h { status = record h.status { is_healthy = healthy } })

-- The result of the three checks of perform_health_check.
unfoldable pub healthy_now : Env → Handler → Bool
healthy_now e h = e.connected && (is_network_available h.status.current_network && e.ping_sent)

-- The failover that perform_health_check triggers, if any.
unfoldable pub chosen : Config → Option FailoverType
chosen c =
    if c.enable_server
    then some server
    else if c.enable_network
    then some network
    else if c.enable_local
    then some local
    else none

-- perform_health_check, where `locked` says that the calling thread holds the mutex
unfoldable pub perform_health_check : (locked : Bool) → Env → Handler → Option Handler
unfolding trigger trigger_locked healthy_now chosen
perform_health_check locked e h =
    let healthy = healthy_now e h in
    let checked = record h { status = record h.status { is_healthy = healthy } } in
    if healthy then some checked else elim (chosen h.config) [
      | none ↦ some checked
      | some type ↦
          if locked then none else elim (trigger e type checked) [ none ↦ none | some r ↦ some r.1 ]
    ]

-- rtmp_failover_check_health
unfoldable pub check_health : Env → Handler → Option Handler
unfolding perform_health_check
check_health e h = perform_health_check false e h

-- The thread's test of the loop, when it is asleep.
unfoldable pub wake : Handler → Handler
wake h = wake_thread h.thread
  where
    wake_thread : Thread → Handler
    wake_thread asleep = record h { thread = if h.thread_running then entering else absent }
    wake_thread _ = h

-- What follows a health check under the lock.
unfoldable pub leave : Env → Handler → Option Handler → Handler
leave e h none = record h { thread = blocked; held = true }
leave e h (some h1) = record h1 {
  status = record h1.status { health_check_time = e.now };
  thread = asleep;
}

-- The loop's body, from the lock to the sleep.
unfoldable pub health_round : Env → Handler → Handler
unfolding perform_health_check leave
health_round e h =
    if h.held
    then h
    else if is_active h.status.state
        && leb h.config.health_check_interval (sub32 e.now h.status.health_check_time)
    then leave e h (perform_health_check true e h)
    else record h { thread = asleep }

-- rtmp_failover_set_callback
unfoldable pub set_callback : Bool → Handler → Option Handler
set_callback callback h = if h.held then none else some (record h { has_callback = callback })

-- rtmp_failover_get_config and rtmp_failover_get_status
unfoldable pub get_config : Handler → Config
get_config h = h.config

unfoldable pub get_status : Handler → Status
get_status h = h.status

-- rtmp_failover_is_active and rtmp_failover_is_healthy
unfoldable pub reports_active : Handler → Bool
reports_active h = is_active h.status.state

unfoldable pub reports_healthy : Handler → Bool
reports_healthy h = h.status.is_healthy

-- rtmp_failover_destroy: the handler as it is freed.
unfoldable pub destroy : Handler → Option Handler
unfolding stop
destroy h = stop h
