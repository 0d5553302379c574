-- ===== src/Failover/Attempts.antt =====
-- rtmp_failover.c: the attempts over any sequence of operations.
use rtmpcamera.Prelude.{
  ◌+◌, ◌≤◌, ◌≡◌, refl, Bool, true, false, Option, none, some, List, arith, ◌>>=◌, u32, OptionAll,
  run_all, run_all-keeps,
}
use rtmpcamera.Failover.{
  FailoverType, server, network, local, switching, Status, Handler, Env, create,
}
use rtmpcamera.Failover.Health.{
  switch_type, conclude, trigger_locked, trigger, start, stop, reset, set_healthy,
  perform_health_check, check_health, wake, leave, health_round, healthy_now,
}
use rtmpcamera.Failover.Outcomes.{switch_type-attempts, conclude-attempts}

pub data Op : Type 0 where
  triggers : Env → FailoverType → Op
  checks starts resets rounds : Env → Op
  stops wakes : Op
  sets_healthy : Bool → Op

-- `none`: the caller waits for ever.
unfoldable pub step : Op → Handler → Option Handler
unfolding trigger check_health start stop reset set_healthy wake health_round
step (triggers e type) h = trigger e type h >>= λ r. some r.1
step (checks e) h = check_health e h
step (starts e) h = start e h
step (resets e) h = reset e h
step (rounds e) h = some (health_round e h)
step stops h = stop h
step wakes h = some (wake h)
step (sets_healthy b) h = set_healthy b h

abbrev pub Bounded : Handler → Type 0
Bounded h =
    (h.status.switch_attempts ≤ h.config.max_switch_attempts) × (h.config.max_switch_attempts ≡ 3)

conclude-config :
    (e : Env) (type : FailoverType) (h : Handler) (r : Bool × Status)
    → (conclude e type h r).1.config ≡ h.config
unfolding conclude
conclude-config e type h r = refl

trigger_locked-Bounded :
    (e : Env) (type : FailoverType) (h : Handler) → Bounded h → Bounded (trigger_locked e type h).1
unfolding trigger_locked
trigger_locked-Bounded e type h b =
    let begun = record h.status {
      state = switching;
      current_type = type;
      switch_attempts = u32 (h.status.switch_attempts + 1);
    } in
    let r = switch_type e type h.config begun in
    ground (
      arith,
      switch_type-attempts e type h.config begun,
      conclude-attempts e type h r,
      conclude-config e type h r,
    )

abbrev PairBounded : Option (Bool × Handler) → Type 0
PairBounded none = Unit {0}
PairBounded (some (r, h)) = Bounded h

trigger-Bounded :
    (e : Env) (type : FailoverType) (h : Handler) → Bounded h → PairBounded (trigger e type h)
unfolding trigger
trigger-Bounded e type h b = ground (arith, trigger_locked-Bounded e type h b)

check-Bounded :
    (locked : Bool) (e : Env) (h : Handler)
    → Bounded h
    → OptionAll Bounded (perform_health_check locked e h)
unfolding perform_health_check
check-Bounded locked e h b =
    let checked = record h { status = record h.status { is_healthy = healthy_now e h } } in
    ground (
      arith,
      trigger-Bounded e server checked b,
      trigger-Bounded e network checked b,
      trigger-Bounded e local checked b,
    )

round-Bounded : (e : Env) (h : Handler) → Bounded h → Bounded (health_round e h)
unfolding health_round leave
round-Bounded e h b = ground (arith, check-Bounded true e h b)

step-Bounded : (op : Op) (h : Handler) → Bounded h → OptionAll Bounded (step op h)
unfolding step check_health start stop reset set_healthy wake
step-Bounded (triggers e type) h b = ground (arith, trigger-Bounded e type h b)
step-Bounded (checks e) h b = check-Bounded false e h b
step-Bounded (starts e) h b = ground arith
step-Bounded (resets e) h b = ground arith
step-Bounded (rounds e) h b = round-Bounded e h b
step-Bounded stops h b = ground arith
step-Bounded wakes h b = ground arith
step-Bounded (sets_healthy x) h b = ground arith

-- However triggers, health checks, starts, stops, resets and rounds of the thread follow one another
-- on a new handler with its default configuration, its count of switch attempts is at most 3.
pub run-create-Bounded :
    (ops : List Op) (h : Handler) → run_all step ops create ≡ some h → h.status.switch_attempts ≤ 3
unfolding create
run-create-Bounded ops h e =
    let b = run_all-keeps step Bounded step-Bounded ops create h (omega arith, refl) e in
    omega (arith, b.0, b.1)
