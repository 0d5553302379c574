-- ===== src/Server/Steps.antt =====
-- rtmp_server_integration.c: the operations that the threads and the clients of a server do in turn.
use rtmpcamera.Prelude.{ℕ, Bool, Option, none, some, List}
use rtmpcamera.Server.{Server, Chunk, Startup, start}
use rtmpcamera.Server.Cleanup.{Outcome, done, blocked, used_after_free}
use rtmpcamera.Server.Messages.{Library}
use rtmpcamera.Server.Threads.{
  accept_connection, monitor_round, begin_connection, connection_round, stop,
}
use rtmpcamera.Server.Queries.{
  close_connection, set_chunk_size, set_window_ack_size, set_peer_bandwidth,
  set_connection_callback, set_metadata_callback, set_frame_callback, set_state_callback,
}

-- What a thread or a client does to the server.
pub data Op : Type 0 where
  starts : Startup → (port : ℕ) → Op
  accepts : (id socket now : ℕ) → (starts_thread : Bool) → Op
  monitors : (now : ℕ) → Op
  begins : (id : ℕ) → (makes_stream shakes_hands : Bool) → Op
  receives : Library → (id now : ℕ) → Option (List (ℕ × Chunk)) → Op
  closes : (id : ℕ) → Op
  stops : (leaving : List ℕ) → Op
  sets_chunk_size sets_window_ack_size : (size : ℕ) → Op
  sets_peer_bandwidth : (window_size limit_type : ℕ) → Op
  sets_connection_callback sets_metadata_callback : Bool → Op
  sets_frame_callback sets_state_callback : Bool → Op

abbrev pub server_of : Outcome → Option Server
server_of (done s) = some s
server_of (blocked s) = some s
server_of used_after_free = none

abbrev pub started : Option (Bool × Server) → Option Server
started none = none
started (some (r, s)) = some s

-- The server behind an operation, the others going on when its thread is blocked.
unfoldable pub step : Op → Server → Option Server
unfolding start accept_connection monitor_round begin_connection connection_round close_connection
    stop set_chunk_size set_window_ack_size set_peer_bandwidth set_connection_callback
    set_metadata_callback set_frame_callback set_state_callback
step (starts e port) s = started (start e port s)
step (accepts id socket now starts_thread) s =
    server_of (accept_connection id socket now starts_thread s)
step (monitors now) s = server_of (monitor_round now s)
step (begins id makes_stream shakes_hands) s =
    server_of (begin_connection id makes_stream shakes_hands s)
step (receives lib id now received) s = server_of (connection_round lib id now received s)
step (closes id) s = server_of (close_connection id s)
step (stops leaving) s = server_of (stop leaving s)
step (sets_chunk_size size) s = set_chunk_size size s
step (sets_window_ack_size size) s = set_window_ack_size size s
step (sets_peer_bandwidth window_size limit_type) s = set_peer_bandwidth window_size limit_type s
step (sets_connection_callback b) s = some (set_connection_callback b s)
step (sets_metadata_callback b) s = some (set_metadata_callback b s)
step (sets_frame_callback b) s = some (set_frame_callback b s)
step (sets_state_callback b) s = some (set_state_callback b s)
