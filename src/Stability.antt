-- ===== src/Stability.antt =====
-- rtmp_stability.c and rtmp_stability.h: the stability monitor and its watchdog thread.
--
-- `held` says that the monitor's mutex is held by the watchdog thread, which waits for that same mutex
-- and will not give it back; `none` is a caller that waits for the mutex, or for the thread, for
-- ever. What rtmp_send_packet, rtmp_connect and the clock give is the record `Env`, chosen anew for
-- each call. The callback observes: its calls are logged, the latest first.
pub mod Watchdog
pub mod Heartbeat
pub mod Recovery
mod Tests
use rtmpcamera.Prelude.{
  ℕ, ◌+◌, Bool, true, false, not, Option, none, some, List, [], ◌∷◌, if◌then◌else◌, leb, u32,
}

pub data Mode : Type 0 where
  no_recovery reconnect reset fallback : Mode

pub data State : Type 0 where
  stopped starting running recovering failed : State

abbrev pub is_stopped : State → Bool
is_stopped stopped = true
is_stopped _ = false

abbrev pub is_running : State → Bool
is_running running = true
is_running _ = false

abbrev pub is_failed : State → Bool
is_failed failed = true
is_failed _ = false

pub record Config : Type 0 where
  pub max_reconnect_attempts : ℕ
  pub reconnect_delay : ℕ
  pub heartbeat_interval : ℕ
  pub watchdog_timeout : ℕ
  pub recovery_mode : Mode
  pub auto_reconnect : Bool
  pub use_watchdog : Bool
  pub use_heartbeat : Bool

-- The watchdog thread: not started, asleep, behind the loop's test and about to lock the mutex, or
-- waiting for the mutex that it holds itself.
pub data Thread : Type 0 where
  absent asleep entering blocked : Thread

-- What attempt_reconnect does to the connection: rtmp_disconnect, and rtmp_connect with its result.
pub data LinkCall : Type 0 where
  dropped : LinkCall
  dialled : Bool → LinkCall

-- Behind the struct's fields: the calls of the callback and of the connection, the latest first.
pub record Monitor : Type 0 where
  pub config : Config
  pub state : State
  pub reconnect_count : ℕ
  pub last_heartbeat : ℕ
  pub last_response : ℕ
  pub has_callback : Bool
  pub heartbeat_pending : Bool
  pub thread : Thread
  pub watchdog_running : Bool
  pub held : Bool
  pub calls : List Mode
  pub link_calls : List LinkCall

-- `now`, `sent_at` and `checked_at` are the clock in watchdog_thread or a client's call, in
-- send_heartbeat and in check_connection_status.
pub record Env : Type 0 where
  pub sends : Bool
  pub connects : Bool
  pub now : ℕ
  pub sent_at : ℕ
  pub checked_at : ℕ

unfoldable pub create : Monitor
create = record {
  config = record {
    max_reconnect_attempts = 3;
    reconnect_delay = 5000;
    heartbeat_interval = 30000;
    watchdog_timeout = 10000;
    recovery_mode = reconnect;
    auto_reconnect = true;
    use_watchdog = true;
    use_heartbeat = true;
  };
  state = stopped;
  reconnect_count = 0;
  last_heartbeat = 0;
  last_response = 0;
  has_callback = false;
  heartbeat_pending = false;
  thread = absent;
  watchdog_running = false;
  held = false;
  calls = [];
  link_calls = [];
}

unfoldable pub attempt_reconnect : Env → Monitor → Bool × Monitor
attempt_reconnect e m =
    let called = record m { link_calls = dialled e.connects ∷ dropped ∷ m.link_calls } in
    if leb m.config.max_reconnect_attempts m.reconnect_count
    then (false, record m { state = failed })
    else if e.connects
    then (true, record called { reconnect_count = u32 (m.reconnect_count + 1); state = running })
    else (false, record called { state = failed })

-- The end of a call that runs under the mutex: `stuck` is a thread that locks it once more.
pub data Outcome : Type 0 where
  done stuck : Monitor → Outcome

-- The switch of enter_recovery_mode. The mode RESET calls rtmp_stability_reset, which locks.
unfoldable pub recover : Env → Mode → Monitor → Outcome
unfolding attempt_reconnect
recover e reconnect m = if m.config.auto_reconnect then done (attempt_reconnect e m).1 else done m
recover e reset m = stuck m
recover e fallback m = done (record m { state = failed })
recover e no_recovery m = done m

unfoldable pub enter_recovery_mode : Env → Mode → Monitor → Outcome
unfolding recover
enter_recovery_mode e mode m =
    if not (is_running m.state)
    then done m
    else recover e mode (record m {
      state = recovering;
      calls = if m.has_callback then mode ∷ m.calls else m.calls;
    })

-- exit_recovery_mode, which nothing calls
unfoldable pub exit_recovery_mode : (success : Bool) → Monitor → Monitor
exit_recovery_mode success m = exit_state m.state
  where
    exit_state : State → Monitor
    exit_state recovering = record m {
      state = if success then running else failed;
      calls = if m.has_callback then no_recovery ∷ m.calls else m.calls;
    }
    exit_state _ = m
