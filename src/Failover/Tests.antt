-- ===== src/Failover/Tests.antt =====
-- Runs of rtmp_failover.c on concrete handlers, and the theorems at them.
use rtmpcamera.Prelude.{
  ◌≡◌, refl, some, ◌≤◌, true, false, none, [], ◌∷◌, arith, codes, ◌>>=◌, run_all,
}
use rtmpcamera.Failover.{
  Handler, Env, Attempt, create, active, failed, asleep, start_local_recording, server, network,
  local, entering, reconnect_to_server, connect_loop,
}
use rtmpcamera.Failover.Health.{
  trigger, trigger_locked, conclude, switch_type, start, stop, reset, set_healthy, healthy_now,
  chosen, health_round, wake,
}
use rtmpcamera.Failover.Attempts.{step, starts, triggers, run-create-Bounded}
use rtmpcamera.Failover.Health.{reports_active, reports_healthy, destroy}
use rtmpcamera.Failover.Outcomes.{
  Triggers, trigger-Triggers, health_round_blocks, start-health_round,
}

-- The second round connects within the timeout.
abbrev attempt : Attempt
attempt = record { parsed = true; start_time = 100; rounds = (100, false) ∷ (700, true) ∷ [] }

abbrev env : Env
env = record { connected = false; ping_sent = true; attempts = λ n. attempt; now = 20000 }

attempt_connects : reconnect_to_server 5000 attempt ≡ true
unfolding reconnect_to_server connect_loop
attempt_connects = refl

attempt_too_late : reconnect_to_server 500 attempt ≡ false
unfolding reconnect_to_server connect_loop
attempt_too_late = refl

-- ACTIVE on en0, with one backup server, about to check.
abbrev busy : Handler
busy = record create {
  config = record create.config { backup_servers = codes "b" ∷ [] };
  status = record create.status { state = active; current_network = codes "en0" };
  thread = entering;
  thread_running = true;
}

trigger-Triggers_example : Triggers env server busy (trigger env server busy)
unfolding create
trigger-Triggers_example = trigger-Triggers env server busy refl (omega arith)

health_round_blocks_example :
    (trigger env network (health_round env busy) ≡ none)
    × (start env (health_round env busy) ≡ none)
    × (stop (health_round env busy) ≡ none)
    × (reset env (health_round env busy) ≡ none)
    × (set_healthy true (health_round env busy) ≡ none)
unfolding create healthy_now chosen
health_round_blocks_example =
    health_round_blocks env env busy server network true refl refl (omega arith) refl refl

start-health_round_run :
    (start (record env { now = 5 }) create >>= λ h. trigger env local (health_round env (wake h)))
    ≡ none
start-health_round_run = start-health_round (record env { now = 5 }) env env (omega arith)

-- The handler behind a start and a failed switch to a local recording.
abbrev tried : Handler
tried = record create {
  status = record create.status {
    state = failed;
    current_type = local;
    switch_attempts = 1;
    last_switch_time = 20000;
    health_check_time = 20000;
  };
  thread = asleep;
  thread_running = true;
}

run-tried : run_all step (starts env ∷ triggers env local ∷ []) create ≡ some tried
unfolding run_all step start create trigger trigger_locked conclude switch_type
    start_local_recording
run-tried = refl

run-create-Bounded_example : tried.status.switch_attempts ≤ 3
run-create-Bounded_example =
    run-create-Bounded (starts env ∷ triggers env local ∷ []) tried run-tried

-- A new handler is healthy, not active, and can be destroyed.
create-reports :
    (reports_active create ≡ false)
    × (reports_healthy create ≡ true)
    × (destroy create ≡ some create)
unfolding reports_active reports_healthy destroy create
create-reports = (refl, refl, refl)
