-- ===== src/Stability/Heartbeat.antt =====
-- rtmp_stability.c: what becomes of a heartbeat that was sent, since no code clears `heartbeatPending` but
-- a start and a reset.
use rtmpcamera.Prelude.{
  ℕ, zero, suc, Bool-cases, ◌+◌, ◌-◌, ◌≤◌, ◌<◌, ◌≡◌, refl, ap, ◌∙◌, inl, inr, true, false, List, [],
  ◌∷◌, length, arith, sub32, u32_mod, if◌then◌else◌,
}
use rtmpcamera.Stability.{
  reconnect, running, recovering, failed, Monitor, Env, done, attempt_reconnect, recover,
  enter_recovery_mode, LinkCall, dropped, dialled,
}
use rtmpcamera.Stability.Watchdog.{watch, send_heartbeat, check_connection_status, watchdog_round}

-- The rounds of the thread one after another.
unfoldable pub rounds : List Env → Monitor → Monitor
rounds [] m = m
rounds (e ∷ es) m = rounds es (watchdog_round e m)

-- Each round reads the clock at least the watchdog's timeout after the heartbeat.
unfoldable pub AllLate : (timeout last : ℕ) → List Env → Type 0
AllLate timeout last [] = Unit {0}
AllLate timeout last (e ∷ es) = (timeout ≤ sub32 e.checked_at last) × AllLate timeout last es

-- A running monitor in mode RECONNECT that waits for the answer to a heartbeat.
abbrev pub IsWaiting : (max count timeout last : ℕ) → Monitor → Type 0
IsWaiting max count timeout last m =
    (m.state ≡ running)
    × (m.heartbeat_pending ≡ true)
    × (m.held ≡ false)
    × (m.config.recovery_mode ≡ reconnect)
    × (m.config.auto_reconnect ≡ true)
    × (m.config.max_reconnect_attempts ≡ max)
    × (m.reconnect_count ≡ count)
    × (m.config.watchdog_timeout ≡ timeout)
    × (m.last_heartbeat ≡ last)

watch-late :
    (timeout last : ℕ) (e : Env) (m : Monitor)
    → m.state ≡ running
    → m.heartbeat_pending ≡ true
    → m.config.recovery_mode ≡ reconnect
    → m.config.auto_reconnect ≡ true
    → m.config.watchdog_timeout ≤ sub32 e.checked_at m.last_heartbeat
    → watch e m
      ≡ done
          (attempt_reconnect e (record m {
            state = recovering;
            calls = if m.has_callback then reconnect ∷ m.calls else m.calls;
          })).1
unfolding watch send_heartbeat check_connection_status enter_recovery_mode recover
watch-late timeout last e m s p r a h = ground arith

-- The watchdog's calls of the connection in rounds that each drop it and connect anew, until a
-- connection fails or no reconnection is left.
abbrev pub reconnections : (left : ℕ) → List Env → (before : List LinkCall) → List LinkCall
reconnections left [] before = before
reconnections zero (e ∷ es) before = before
reconnections (suc left) (e ∷ es) before =
    let behind = dialled e.connects ∷ dropped ∷ before in
    let rest = reconnections left es behind in if e.connects then rest else behind

module _ (left : ℕ) (e : Env) (es : List Env) (before : List LinkCall) where
  reconnections-on :
      e.connects ≡ true
      → reconnections left es (dialled true ∷ dropped ∷ before)
        ≡ reconnections (suc left) (e ∷ es) before
  reconnections-on c = ground (arith, c)

  reconnections-end :
      e.connects ≡ false
      → dialled false ∷ dropped ∷ before ≡ reconnections (suc left) (e ∷ es) before
  reconnections-end c = ground (arith, c)

-- The monitor has given up, behind these calls.
abbrev pub GaveUp : List LinkCall → Monitor → Type 0
GaveUp log m = (m.state ≡ failed) × (m.link_calls ≡ log)

module _ (max count timeout last : ℕ) (e : Env) (m : Monitor)
    (w : IsWaiting max count timeout last m) (h : timeout ≤ sub32 e.checked_at last) where
  round-reconnects :
      watch e m
      ≡ done
          (attempt_reconnect e (record m {
            state = recovering;
            calls = if m.has_callback then reconnect ∷ m.calls else m.calls;
          })).1
  round-reconnects =
      let late : m.config.watchdog_timeout ≤ sub32 e.checked_at m.last_heartbeat =
        rw (w.7, w.8) h in
      watch-late timeout last e m w.0 w.1 w.3 w.4 late

  round-spent : max ≤ count → GaveUp m.link_calls (watchdog_round e m)
  unfolding watchdog_round attempt_reconnect
  round-spent k = ground (arith, round-reconnects, w)

  round-refused :
      count < max
      → e.connects ≡ false
      → GaveUp (dialled false ∷ dropped ∷ m.link_calls) (watchdog_round e m)
  unfolding watchdog_round attempt_reconnect
  round-refused k c = ground (arith, round-reconnects, w)

  round-IsWaiting :
      count < max
      → max < u32_mod
      → e.connects ≡ true
      → IsWaiting max (count + 1) timeout last (watchdog_round e m)
        × ((watchdog_round e m).link_calls ≡ dialled true ∷ dropped ∷ m.link_calls)
  unfolding watchdog_round attempt_reconnect
  round-IsWaiting k l c = ground (arith, round-reconnects, w)

round_failed :
    (log : List LinkCall) (e : Env) (m : Monitor) → GaveUp log m → GaveUp log (watchdog_round e m)
unfolding watchdog_round
round_failed log e m g = ground (arith, g)

rounds_failed :
    (log : List LinkCall) (es : List Env) (m : Monitor) → GaveUp log m → GaveUp log (rounds es m)
unfolding rounds
rounds_failed log [] m g = g
rounds_failed log (e ∷ es) m g = rounds_failed log es (watchdog_round e m) (round_failed log e m g)

rounds-IsWaiting :
    (max count left timeout last : ℕ) (es : List Env) (m : Monitor)
    → IsWaiting max count timeout last m
    → AllLate timeout last es
    → max < u32_mod
    → count + left ≡ max
    → left < length es
    → GaveUp (reconnections left es m.link_calls) (rounds es m)
unfolding rounds AllLate
rounds-IsWaiting max count left timeout last [] m w a k c h = absurd (omega arith)
rounds-IsWaiting max count zero timeout last (e ∷ es) m w a k c h =
    rounds_failed m.link_calls es (watchdog_round e m)
      (round-spent max count timeout last e m w a.0 (omega arith))
rounds-IsWaiting max count (suc left) timeout last (e ∷ es) m w a k c h =
    elim (Bool-cases e.connects) [
      | inl works ↦
          let (n, log) = round-IsWaiting max count timeout last e m w a.0 (omega arith) k works in
          let behind =
            rounds-IsWaiting max (count + 1) left timeout last es (watchdog_round e m) n a.1 k
              (omega arith) (omega arith) in
          (
            behind.0,
            behind.1
                ∙ (ap (reconnections left es) log ∙ reconnections-on left e es m.link_calls works),
          )
      | inr fails ↦
          let ended =
            rounds_failed (dialled false ∷ dropped ∷ m.link_calls) es (watchdog_round e m)
              (round-refused max count timeout last e m w a.0 (omega arith) fails) in
          (ended.0, ended.1 ∙ reconnections-end left e es m.link_calls fails)
    ]

-- A heartbeat is pending on a running monitor in mode RECONNECT with autoReconnect, whose mutex is
-- free. When every round of the watchdog comes at least the timeout after that heartbeat, each round
-- drops the connection and connects anew, as long as reconnections are left and none has failed;
-- and behind more rounds than there are reconnections left the monitor is FAILED, even if every
-- reconnection succeeds.
pub rounds-pending :
    (es : List Env) (m : Monitor)
    → m.state ≡ running
    → m.heartbeat_pending ≡ true
    → m.held ≡ false
    → m.config.recovery_mode ≡ reconnect
    → m.config.auto_reconnect ≡ true
    → AllLate m.config.watchdog_timeout m.last_heartbeat es
    → m.config.max_reconnect_attempts < u32_mod
    → m.reconnect_count ≤ m.config.max_reconnect_attempts
    → m.config.max_reconnect_attempts < m.reconnect_count + length es
    → let left = m.config.max_reconnect_attempts - m.reconnect_count in
      ((rounds es m).state ≡ failed)
      × ((rounds es m).link_calls ≡ reconnections left es m.link_calls)
rounds-pending es m s p f r a l k c h =
    let left = m.config.max_reconnect_attempts - m.reconnect_count in
    rounds-IsWaiting m.config.max_reconnect_attempts m.reconnect_count left
      m.config.watchdog_timeout m.last_heartbeat es m (s, p, f, r, a, refl, refl, refl, refl) l k
      (omega arith) (omega arith)
