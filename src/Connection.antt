-- ===== src/Connection.antt =====
-- rtmp_core.c and rtmp_core.h: the connection, its state and its queue of messages to send.
--
-- The queue is the list of its messages, the first one first: the module Queue is about the linked
-- queue behind it. Nothing is ever put in the receive queue. What the socket, the encoders and
-- malloc give is an argument.
pub mod Types
pub mod Thread
pub mod Api
pub mod Order
pub mod Linked
mod Tests
use rtmpcamera.Prelude.{
  ℕ, ◌+◌, Bool, true, false, not, ◌&&◌, ◌||◌, List, [], ◌∷◌, ◌++◌, if◌then◌else◌, ◌==◌, leb, ltb,
  length,
}
use rtmpcamera.Queue.{max_queue_size}

abbrev pub Bytes : Type 0
Bytes = List ℕ

abbrev pub default_chunk_size : ℕ
default_chunk_size = 128

abbrev pub max_chunk_size : ℕ
max_chunk_size = 65536

abbrev pub default_window_size : ℕ
default_window_size = 2500000

abbrev pub default_buffer_time : ℕ
default_buffer_time = 500

abbrev pub ping_interval : ℕ
ping_interval = 5000

pub data State : Type 0 where
  disconnected connecting handshaking connected publishing failed : State

-- The number of a state in the enumeration.
abbrev pub rank : State → ℕ
rank disconnected = 0
rank connecting = 1
rank handshaking = 2
rank connected = 3
rank publishing = 4
rank failed = 5

abbrev pub is : State → State → Bool
is a b = rank a == rank b

-- A message of the queue, but for its link.
pub record Message : Type 0 where
  pub contents : Bytes
  pub type : ℕ
  pub timestamp : ℕ
  pub stream_id : ℕ

-- `is_open` is `socket >= 0`; `has_thread` says that the thread is in its loop. `states` are the
-- calls of the state callback, `errors` counts those of the error callback, and `handed` has the
-- messages that were given to `send`, in their order.
pub record Connection : Type 0 where
  pub is_open : Bool
  pub state : State
  pub has_thread : Bool
  pub thread_running : Bool
  pub send_queue : List Message
  pub chunk_size : ℕ
  pub window_size : ℕ
  pub buffer_time : ℕ
  pub stream_id : ℕ
  pub transaction_id : ℕ
  pub bytes_sent : ℕ
  pub bytes_received : ℕ
  pub messages_sent : ℕ
  pub messages_received : ℕ
  pub last_ping_time : ℕ
  pub has_state_callback : Bool
  pub has_error_callback : Bool
  pub states : List State
  pub errors : ℕ
  pub handed : List Message

-- rtmp_create
unfoldable pub create : Connection
create = record {
  is_open = false;
  state = disconnected;
  has_thread = false;
  thread_running = false;
  send_queue = [];
  chunk_size = default_chunk_size;
  window_size = default_window_size;
  buffer_time = default_buffer_time;
  stream_id = 1;
  transaction_id = 1;
  bytes_sent = 0;
  bytes_received = 0;
  messages_sent = 0;
  messages_received = 0;
  last_ping_time = 0;
  has_state_callback = false;
  has_error_callback = false;
  states = [];
  errors = 0;
  handed = [];
}

-- rtmp_set_state
unfoldable pub set_state : State → Connection → Connection
set_state new_state c = record c {
  state = new_state;
  states =
      if c.has_state_callback && not (is c.state new_state)
      then c.states ++ new_state ∷ []
      else c.states;
}

-- rtmp_handle_error
unfoldable pub handle_error : Connection → Connection
unfolding set_state
handle_error c =
    let failing = set_state failed c in
    if failing.has_error_callback then record failing { errors = failing.errors + 1 } else failing

-- rtmp_queue_push on the list: the result, and the queue.
unfoldable pub push : Message → List Message → Bool × List Message
push m queue = if leb max_queue_size (length queue) then (false, queue) else (true, queue ++ m ∷ [])
