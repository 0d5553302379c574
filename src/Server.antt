-- ===== src/Server.antt =====
-- rtmp_server_integration.c and rtmp_server_integration.h: the server, its connections and its mutex.
--
-- A connection's address is its `id`. `live` has the connections that are allocated. `held` says
-- that a thread holds the server's mutex and waits for that same mutex: nobody gets it any more.
-- `is_listening` is `listen_socket >= 0`.
pub mod Cleanup
pub mod Messages
pub mod Threads
pub mod Queries
pub mod Dump
pub mod Steps
pub mod Counting
pub mod Deadlocks
pub mod Media
pub mod Streams
mod Tests
use rtmpcamera.Prelude.{
  ℕ, ◌+◌, Bool, true, false, not, Option, none, some, List, [], ◌∷◌, ◌++◌, if◌then◌else◌, ◌==◌, u32,
  sub32,
}

abbrev pub Bytes : Type 0
Bytes = List ℕ

abbrev pub buffer_size : ℕ
buffer_size = 131072

abbrev pub timeout_sec : ℕ
timeout_sec = 30

pub data ServerState : Type 0 where
  stopped starting running failed restarting : ServerState

pub data ConnectionState : Type 0 where
  new handshake connect create_stream play publishing closed : ConnectionState

-- The labels of the switch and the types of the replies. No file defines all of them.
pub data MessageId : Type 0 where
  connect create_stream play publish video audio data_message metadata : MessageId
  window_ack_size set_peer_bw user_control command set_chunk_size : MessageId
  other : ℕ → MessageId

-- `rtmp_chunk_stream_t`, which no file defines: `msg_length` is the number of bytes of `msg_data`,
-- and a NULL `msg_data` has none.
pub record Chunk : Type 0 where
  pub msg_type_id : MessageId
  pub msg_stream_id : ℕ
  pub timestamp : ℕ
  pub msg_data : Bytes

-- A name is the text before the NUL; the connect time is never set.
pub record Metadata : Type 0 where
  pub app_name : Bytes
  pub stream_name : Bytes
  pub width : ℕ
  pub height : ℕ
  pub frame_rate : ℕ
  pub video_bitrate : ℕ
  pub audio_bitrate : ℕ
  pub audio_sample_rate : ℕ
  pub audio_channels : ℕ
  pub has_video : Bool
  pub has_audio : Bool
  pub bytes_in : ℕ
  pub bytes_out : ℕ
  pub dropped_frames : ℕ
  pub publish_time : ℕ

-- A call of the frame callback.
pub record Frame : Type 0 where
  pub bytes : Bytes
  pub timestamp : ℕ
  pub is_keyframe : Bool

-- Behind the struct's fields: the calls of rtmp_connection_send_chunk, which no file defines, and
-- of the frame callback, in their order.
pub record Connection : Type 0 where
  pub id : ℕ
  pub socket : ℕ
  pub state : ConnectionState
  pub metadata : Metadata
  pub last_recv_time : ℕ
  pub last_send_time : ℕ
  pub is_publisher : Bool
  pub sent : List Chunk
  pub frames : List Frame

pub data Event : Type 0 where
  connection_called : (id : ℕ) → Event
  state_called : ServerState → Event

pub record Server : Type 0 where
  pub state : ServerState
  pub is_running : Bool
  pub is_listening : Bool
  pub port : ℕ
  pub connections : List Connection
  pub num_connections : ℕ
  pub has_connection_callback : Bool
  pub has_metadata_callback : Bool
  pub has_frame_callback : Bool
  pub has_state_callback : Bool
  pub live : List ℕ
  pub held : Bool
  pub events : List Event

abbrev pub is_stopped : ServerState → Bool
is_stopped stopped = true
is_stopped _ = false

-- rtmp_server_initialize, before any callback is set.
unfoldable pub initialize : Server
initialize = record {
  state = stopped;
  is_running = false;
  is_listening = true;
  port = 0;
  connections = [];
  num_connections = 0;
  has_connection_callback = false;
  has_metadata_callback = false;
  has_frame_callback = false;
  has_state_callback = false;
  live = [];
  held = false;
  events = [];
}

-- rtmp_server_update_state
unfoldable pub update_state : ServerState → Server → Server
update_state new_state s = record s {
  state = new_state;
  events = if s.has_state_callback then s.events ++ state_called new_state ∷ [] else s.events;
}

-- What the calls of rtmp_server_start return. `accept_returns`: a client comes, which ends the accept
-- thread's call of `accept`.
pub record Startup : Type 0 where
  pub makes_socket : Bool
  pub sets_option : Bool
  pub binds : Bool
  pub listens : Bool
  pub starts_accept : Bool
  pub starts_monitor : Bool
  pub accept_returns : Bool

-- rtmp_server_start; `none`: it waits for the accept thread for ever.
unfoldable pub start : Startup → (port : ℕ) → Server → Option (Bool × Server)
unfolding update_state
start e port s =
    let opened = record s { is_listening = true } in
    let begun = record opened { is_running = true; port = port } in
    if not (is_stopped s.state)
    then some (false, s)
    else if not e.makes_socket
    then some (false, record s { is_listening = false })
    else if not e.sets_option
    then some (false, opened)
    else if not e.binds
    then some (false, opened)
    else if not e.listens
    then some (false, opened)
    else if not e.starts_accept
    then some (false, record begun { is_running = false })
    else if not e.starts_monitor
    then (if e.accept_returns then some (false, record begun { is_running = false }) else none)
    else some (true, update_state running begun)

abbrev pub empty_metadata : Metadata
empty_metadata = record {
  app_name = [];
  stream_name = [];
  width = 0;
  height = 0;
  frame_rate = 0;
  video_bitrate = 0;
  audio_bitrate = 0;
  audio_sample_rate = 0;
  audio_channels = 0;
  has_video = false;
  has_audio = false;
  bytes_in = 0;
  bytes_out = 0;
  dropped_frames = 0;
  publish_time = 0;
}

-- `calloc` and the assignments behind it.
unfoldable pub make_connection : (id socket now : ℕ) → Connection
make_connection id socket now = record {
  id = id;
  socket = socket;
  state = new;
  metadata = empty_metadata;
  last_recv_time = now;
  last_send_time = now;
  is_publisher = false;
  sent = [];
  frames = [];
}
