-- ===== src/Failover/Outcomes.antt =====
-- rtmp_failover.c: what a trigger does, the bound on attempts, and the health check that stops it all.
use rtmpcamera.Prelude.{
  ◌+◌, ◌≤◌, ◌<◌, ◌≡◌, ◌≢◌, refl, ◌⊎◌, ◌&&◌, ◌∷◌, Bool, true, false, Option, none, some, arith,
  if◌then◌else◌, u32, u32_mod, sub32, ◌>>=◌,
}
use rtmpcamera.Failover.{
  FailoverType, server, local, active, switching, failed, Config, Status, blocked, Handler, Env,
  create, is_network_available, Text, network, no_failover, switch_server, switch_network,
  interfaces, start_local_recording,
}
use rtmpcamera.Failover.Health.{
  switch_type, conclude, trigger_locked, trigger, start, stop, reset, set_healthy, healthy_now,
  chosen, perform_health_check, wake, leave, health_round,
}

abbrev is_found : Option Text → Bool
is_found none = false
is_found (some name) = true

-- Whether a switch of this type is enabled and finds what it looks for: a backup server or another
-- interface over which the connection comes about, or a path to record to.
abbrev pub succeeds : Env → FailoverType → Handler → Bool
succeeds e server h =
    let c = h.config in
    c.enable_server && is_found (switch_server c.switch_timeout e.attempts 0 c.backup_servers)
succeeds e network h =
    let c = h.config in
    c.enable_network
    && is_found (switch_network c.switch_timeout e.attempts 0 h.status.current_network interfaces)
succeeds e local h = h.config.enable_local && start_local_recording h.config
succeeds e no_failover h = false

-- One counted attempt of an ACTIVE handler with attempts left, which ends ACTIVE or FAILED, or else
-- nothing at all.
abbrev pub Triggers : Env → FailoverType → Handler → Option (Bool × Handler) → Type 0
Triggers e type h none = ⊥
Triggers e type h (some (success, h1)) =
    ((h.status.state ≡ active)
      × (h.status.switch_attempts < h.config.max_switch_attempts)
      × (success ≡ succeeds e type h)
      × (h1.status.state ≡ (if success then active else failed))
      × (h1.status.switch_attempts ≡ h.status.switch_attempts + 1)
      × (h1.status.current_type ≡ type)
      × (h1.calls ≡ (if h.has_callback then (type, success) ∷ h.calls else h.calls)))
    ⊎ (((h.status.state ≢ active) ⊎ (h.config.max_switch_attempts ≤ h.status.switch_attempts))
        × (success ≡ false)
        × (h1 ≡ h))

pub switch_type-attempts :
    (e : Env) (type : FailoverType) (c : Config) (st : Status)
    → (switch_type e type c st).1.switch_attempts ≡ st.switch_attempts
unfolding switch_type
switch_type-attempts e type c st = ground arith

pub conclude-attempts :
    (e : Env) (type : FailoverType) (h : Handler) (r : Bool × Status)
    → ((conclude e type h r).1.status.switch_attempts ≡ r.1.switch_attempts)
      × ((conclude e type h r).1.status.state
          ≡ (if (conclude e type h r).0 then active else failed))
unfolding conclude
conclude-attempts e type h r = ground arith

switch_type-succeeds :
    (e : Env) (type : FailoverType) (h : Handler) (st : Status)
    → st.current_network ≡ h.status.current_network
    → ((switch_type e type h.config st).0 ≡ succeeds e type h)
      × ((switch_type e type h.config st).1.current_type ≡ st.current_type)
unfolding switch_type
switch_type-succeeds e server h st n = ground arith
switch_type-succeeds e network h st n = rw n (ground arith)
switch_type-succeeds e local h st n = ground arith
switch_type-succeeds e no_failover h st n = (refl, refl)

conclude_lem :
    (e : Env) (type : FailoverType) (h : Handler) (r : Bool × Status)
    → ((conclude e type h r).0 ≡ r.0)
      × ((conclude e type h r).1.status.current_type ≡ r.1.current_type)
      × ((conclude e type h r).1.calls
          ≡ (if h.has_callback then (type, r.0) ∷ h.calls else h.calls))
unfolding conclude
conclude_lem e type h r = ground arith

-- While the mutex is free and the number of attempts is below 2^32 - 1, rtmp_failover_trigger
-- returns. On an ACTIVE handler with attempts left it counts one more attempt of this type, returns
-- whether the switch succeeded, which it tells the callback, if one is set, and leaves the handler
-- ACTIVE on success and FAILED on failure, never SWITCHING. On any other handler it returns false
-- and changes nothing.
pub trigger-Triggers :
    (e : Env) (type : FailoverType) (h : Handler)
    → h.held ≡ false
    → h.status.switch_attempts + 1 < u32_mod
    → Triggers e type h (trigger e type h)
unfolding trigger trigger_locked
trigger-Triggers e type h f k =
    let begun = record h.status {
      state = switching;
      current_type = type;
      switch_attempts = u32 (h.status.switch_attempts + 1);
    } in
    let r = switch_type e type h.config begun in
    ground (
      arith,
      switch_type-attempts e type h.config begun,
      switch_type-succeeds e type h begun refl,
      conclude-attempts e type h r,
      conclude_lem e type h r,
    )

health_round-held :
    (e : Env) (h : Handler) (type : FailoverType)
    → h.held ≡ false
    → h.status.state ≡ active
    → h.config.health_check_interval ≤ sub32 e.now h.status.health_check_time
    → healthy_now e h ≡ false
    → chosen h.config ≡ some type
    → health_round e h ≡ record h { thread = blocked; held = true }
unfolding health_round perform_health_check leave
health_round-held e h type f s k u c =
    let locked : perform_health_check true e h ≡ none = rw (u, c) refl in ground (arith, locked)

-- A health check round that finds the connection unhealthy with a failover enabled locks the mutex a
-- second time through rtmp_failover_trigger: the thread waits for itself, and from then on every
-- trigger, start, stop, reset and set_healthy waits for ever.
pub health_round_blocks :
    (e later : Env) (h : Handler) (type any : FailoverType) (healthy : Bool)
    → h.held ≡ false
    → h.status.state ≡ active
    → h.config.health_check_interval ≤ sub32 e.now h.status.health_check_time
    → healthy_now e h ≡ false
    → chosen h.config ≡ some type
    → (trigger later any (health_round e h) ≡ none)
      × (start later (health_round e h) ≡ none)
      × (stop (health_round e h) ≡ none)
      × (reset later (health_round e h) ≡ none)
      × (set_healthy healthy (health_round e h) ≡ none)
unfolding trigger start stop reset set_healthy
health_round_blocks e later h type any healthy f s k u c =
    rw (health_round-held e h type f s k u c) (refl, refl, refl, refl, refl)

-- The first health check of a handler with its default configuration, at least 10 seconds after
-- rtmp_failover_start, blocks in this way whatever the state of the network: no interface has been
-- chosen yet, and the empty name counts as unavailable.
pub start-health_round :
    (e later last : Env)
    → 10000 ≤ sub32 later.now e.now
    → (start e create >>= λ h. trigger last local (health_round later (wake h))) ≡ none
unfolding start create wake healthy_now is_network_available chosen
start-health_round e later last k =
    (health_round_blocks later last _ server local true refl refl k (ground arith) refl).0
