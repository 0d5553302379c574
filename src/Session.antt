-- ===== src/Session.antt =====
-- rtmp_session.c and rtmp_session.h: the client session and its worker thread.
--
-- What the session calls elsewhere is the record `Env`, chosen anew for each call: rtmp_connect,
-- rtmp_handshake_client, pthread_create, rtmp_chunk_encode, rtmp_send and the clock.
-- `held` says that the session's mutex is held by a worker that will not give it back. The mutex
-- is not recursive, so `none`, the result of locking it while it is held, is a thread that waits
-- for ever. Calls and rounds of the worker are atomic. Callbacks observe: their calls are logged
-- in `calls`, the latest first. NULL arguments are not modelled but for the data pointers, which
-- are a Boolean (`true`: not NULL). The configuration texts and the buffers enter `Env` only.
pub mod Api
pub mod Reachable
pub mod Worker
mod Tests
use rtmpcamera.Prelude.{
  ℕ, zero, suc, ◌+◌, Bool, true, false, Option, none, some, List, [], ◌∷◌, not, ◌&&◌, if◌then◌else◌,
  u32, u64,
}

pub data State : Type 0 where
  init connecting connected publishing error closed : State

pub State-discrete : Discrete State
State-discrete = hlevel

abbrev pub state_eq : State → State → Bool
state_eq init init = true
state_eq connecting connecting = true
state_eq connected connected = true
state_eq publishing publishing = true
state_eq error error = true
state_eq closed closed = true
state_eq _ _ = false

-- The texts handed to the error callback.
pub data Reason : Type 0 where
  connection_failed handshake_failed connect_command_failed worker_thread_failed : Reason
  publish_command_failed connection_error : Reason

pub data Call : Type 0 where
  state_callback : (old new : State) → Call
  error_callback : Reason → Call

-- Where the worker thread is: not started, in its loop, waiting for a mutex that it holds itself,
-- or returned.
pub data Thread : Type 0 where
  absent looping blocked returned : Thread

pub record Stats : Type 0 where
  pub connect_time : ℕ
  pub publish_time : ℕ
  pub bytes_sent : ℕ
  pub bytes_received : ℕ
  pub messages_sent : ℕ
  pub messages_received : ℕ
  pub ping_count : ℕ
  pub rtt : ℕ

pub record Session : Type 0 where
  pub state : State
  pub stats : Stats
  pub is_running : Bool
  pub worker : Thread
  pub held : Bool
  pub last_ping_time : ℕ
  pub last_ping_response : ℕ
  pub has_state_callback : Bool
  pub has_error_callback : Bool
  pub calls : List Call

-- The chunk stream and message type of a chunk, as the source names them.
pub data Stream : Type 0 where
  invoke_stream video_stream audio_stream data_stream : Stream

pub data Message : Type 0 where
  command_amf0 video audio data_amf0 : Message

pub record Chunk : Type 0 where
  pub chunk_stream_id : Stream
  pub message_type : Message
  pub message_length : ℕ
  pub timestamp : ℕ
  pub message_stream_id : ℕ

-- The int that rtmp_send returns: negative, or a number of bytes.
pub data Sent : Type 0 where
  failed : Sent
  bytes : ℕ → Sent

pub record Env : Type 0 where
  pub connects : Bool
  pub shakes : Bool
  pub starts_thread : Bool
  pub encodes : Chunk → Bool
  pub sends : Chunk → Sent
  pub now : ℕ

-- rtmp_session_create, once its allocations and rtmp_create succeeded
pub create : Session
create = record {
  state = init;
  stats = record {
    connect_time = 0;
    publish_time = 0;
    bytes_sent = 0;
    bytes_received = 0;
    messages_sent = 0;
    messages_received = 0;
    ping_count = 0;
    rtt = 0;
  };
  is_running = false;
  worker = absent;
  held = false;
  last_ping_time = 0;
  last_ping_response = 0;
  has_state_callback = false;
  has_error_callback = false;
  calls = [];
}

abbrev stamped : State → ℕ → Stats → Stats
stamped connected now t = record t { connect_time = now }
stamped publishing now t = record t { publish_time = now }
stamped _ now t = t

-- session_set_state
unfoldable pub set_state : (now : ℕ) → State → Session → Option Session
set_state now new s =
    if s.held
    then none
    else some (record s {
      state = new;
      stats = stamped new now s.stats;
      calls =
          if s.has_state_callback && not (state_eq s.state new)
          then state_callback s.state new ∷ s.calls
          else s.calls;
    })

abbrev report : Reason → Session → Session
report why s = if s.has_error_callback then record s { calls = error_callback why ∷ s.calls } else s

-- session_handle_error
unfoldable pub handle_error : (now : ℕ) → Reason → Session → Option Session
unfolding set_state
handle_error now why s = elim (set_state now error s) [
  | none ↦ none
  | some s' ↦ some (report why s')
]

-- Results of rtmp_send as conditions: `if (!rtmp_send(…))` and `result > 0`.
abbrev pub is_nonzero : Sent → Bool
is_nonzero failed = true
is_nonzero (bytes zero) = false
is_nonzero (bytes (suc n)) = true

abbrev pub count_sent : Sent → ℕ
count_sent failed = 0
count_sent (bytes n) = n
