-- ===== src/Failover.antt =====
-- rtmp_failover.c and rtmp_failover.h: the failover handler and its health check thread.
--
-- `held` says that the handler's mutex is held by the health check thread, which will not give it
-- back; `none` is a caller that waits for that mutex, or for that thread, for ever. What
-- rtmp_is_connected, rtmp_send_packet, sscanf, rtmp_connect and the clock give is the record `Env`,
-- chosen anew for each call. The callback observes: its calls are logged, the latest first.
pub mod Health
pub mod Outcomes
pub mod Attempts
mod Tests
use rtmpcamera.Prelude.{
  same_bytes, ℕ, zero, suc, ◌+◌, Bool, true, false, not, ◌&&◌, ◌||◌, Option, none, some, List, [],
  ◌∷◌, if◌then◌else◌, ◌==◌, ltb, leb, u32, sub32, codes,
}

abbrev pub Text : Type 0
Text = List ℕ

pub data FailoverType : Type 0 where
  no_failover server network local : FailoverType

pub data State : Type 0 where
  idle active switching failed : State

abbrev pub is_active : State → Bool
is_active active = true
is_active _ = false

abbrev pub is_idle : State → Bool
is_idle idle = true
is_idle _ = false

pub record Config : Type 0 where
  pub enable_server : Bool
  pub enable_network : Bool
  pub enable_local : Bool
  pub max_switch_attempts : ℕ
  pub switch_timeout : ℕ
  pub health_check_interval : ℕ
  pub backup_servers : List Text
  pub local_recording_path : Text

pub record Status : Type 0 where
  pub state : State
  pub current_type : FailoverType
  pub switch_attempts : ℕ
  pub last_switch_time : ℕ
  pub health_check_time : ℕ
  pub is_healthy : Bool
  pub current_server : Text
  pub current_network : Text

-- The health check thread: not started, asleep, behind the loop's test and about to lock the mutex,
-- or waiting for the mutex that it holds itself.
pub data Thread : Type 0 where
  absent asleep entering blocked : Thread

pub record Handler : Type 0 where
  pub config : Config
  pub status : Status
  pub has_callback : Bool
  pub thread : Thread
  pub thread_running : Bool
  pub held : Bool
  pub calls : List (FailoverType × Bool)

-- One call of reconnect_to_server: whether a pattern of sscanf fits, the clock at the start, and for
-- each round of the loop the clock and the result of rtmp_connect.
pub record Attempt : Type 0 where
  pub parsed : Bool
  pub start_time : ℕ
  pub rounds : List (ℕ × Bool)

pub record Env : Type 0 where
  pub connected : Bool
  pub ping_sent : Bool
  pub attempts : ℕ → Attempt
  pub now : ℕ

unfoldable pub create : Handler
create = record {
  config = record {
    enable_server = true;
    enable_network = true;
    enable_local = true;
    max_switch_attempts = 3;
    switch_timeout = 5000;
    health_check_interval = 10000;
    backup_servers = [];
    local_recording_path = [];
  };
  status = record {
    state = idle;
    current_type = no_failover;
    switch_attempts = 0;
    last_switch_time = 0;
    health_check_time = 0;
    is_healthy = true;
    current_server = [];
    current_network = [];
  };
  has_callback = false;
  thread = absent;
  thread_running = false;
  held = false;
  calls = [];
}

-- The loop of reconnect_to_server; the rounds end at the latest when the clock passes the timeout.
unfoldable pub connect_loop : (timeout start : ℕ) → List (ℕ × Bool) → Bool
connect_loop timeout start [] = false
connect_loop timeout start ((now, connects) ∷ rounds) =
    let rest = connect_loop timeout start rounds in
    if not (ltb (sub32 now start) timeout) then false else if connects then true else rest

unfoldable pub reconnect_to_server : (timeout : ℕ) → Attempt → Bool
unfolding connect_loop
reconnect_to_server timeout a =
    if not a.parsed then false else connect_loop timeout a.start_time a.rounds

-- The server that the loop of switch_server stops at; `n` counts the calls of reconnect_to_server.
unfoldable pub switch_server : (timeout : ℕ) → (ℕ → Attempt) → (n : ℕ) → List Text → Option Text
switch_server timeout attempts n [] = none
switch_server timeout attempts n (s ∷ servers) =
    let rest = switch_server timeout attempts (suc n) servers in
    if reconnect_to_server timeout (attempts n) then some s else rest

unfoldable pub is_network_available : Text → Bool
is_network_available name = same_bytes name (codes "en0") || same_bytes name (codes "pdp_ip0")

abbrev pub interfaces : List Text
interfaces = codes "en0" ∷ codes "en1" ∷ codes "pdp_ip0" ∷ codes "pdp_ip1" ∷ []

-- The interface that the loop of switch_network stops at.
unfoldable pub switch_network :
    (timeout : ℕ) → (ℕ → Attempt) → (n : ℕ) → (current : Text) → List Text → Option Text
switch_network timeout attempts n current [] = none
switch_network timeout attempts n current (name ∷ names) =
    let tried = switch_network timeout attempts (suc n) current names in
    let skipped = switch_network timeout attempts n current names in
    if not (same_bytes name current) && is_network_available name
    then if reconnect_to_server timeout (attempts n) then some name else tried
    else skipped

unfoldable pub start_local_recording : Config → Bool
start_local_recording c = elim c.local_recording_path [ [] ↦ false | b ∷ bs ↦ true ]
