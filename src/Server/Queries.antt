-- ===== src/Server/Queries.antt =====
-- rtmp_server_integration.c: the questions of a client to the server, and the messages to every
-- connection. `none`: the caller waits for the mutex for ever.
use rtmpcamera.Prelude.{
  ℕ, ◌+◌, Bool, true, false, ◌&&◌, Option, none, some, List, [], ◌∷◌, ◌++◌, if◌then◌else◌, ◌==◌,
  same_bytes, u32, u64, be32, codes,
}
use rtmpcamera.Server.{
  Bytes, MessageId, Chunk, Metadata, Connection, Server, ServerState, ConnectionState, stopped,
  starting, running, failed, restarting,
}
use rtmpcamera.Server.Cleanup.{Outcome, cleanup_connection}
use rtmpcamera.Server.Messages.{response, send_chunks}

abbrev pub locked : {A : Type 0} → Server → A → Option A
locked s a = if s.held then none else some a

abbrev pub find : (Connection → Bool) → List Connection → Option Connection
find test [] = none
find test (c ∷ cs) = if test c then some c else find test cs

abbrev pub sum : (Connection → ℕ) → List Connection → ℕ
sum count [] = 0
sum count (c ∷ cs) = count c + sum count cs

-- rtmp_server_get_connection
unfoldable pub get_connection : (socket : ℕ) → Server → Option (Option Connection)
get_connection socket s = locked s (find (λ c. c.socket == socket) s.connections)

-- rtmp_server_close_connection
unfoldable pub close_connection : (id : ℕ) → Server → Outcome
unfolding cleanup_connection
close_connection id s = cleanup_connection id s

unfoldable pub get_num_connections : Server → ℕ
get_num_connections s = s.num_connections

unfoldable pub get_state : Server → ServerState
get_state s = s.state

abbrev pub is_some : Option Connection → Bool
is_some none = false
is_some (some c) = true

-- rtmp_server_is_publishing
unfoldable pub is_publishing : (stream_name : Bytes) → Server → Option Bool
is_publishing stream_name s =
    let publishes : Connection → Bool =
      λ c. c.is_publisher && same_bytes c.metadata.stream_name stream_name in
    locked s (is_some (find publishes s.connections))

abbrev metadata_of : Option Connection → Option Metadata
metadata_of none = none
metadata_of (some c) = some c.metadata

-- rtmp_server_get_stream_info
unfoldable pub get_stream_info : (stream_name : Bytes) → Server → Option (Option Metadata)
get_stream_info stream_name s =
    let named : Connection → Bool = λ c. same_bytes c.metadata.stream_name stream_name in
    locked s (metadata_of (find named s.connections))

-- rtmp_server_get_bytes_received, on `uint64_t`
unfoldable pub get_bytes_received : Server → Option ℕ
get_bytes_received s = locked s (u64 (sum (λ c. c.metadata.bytes_in) s.connections))

-- rtmp_server_get_bytes_sent, on `uint64_t`
unfoldable pub get_bytes_sent : Server → Option ℕ
get_bytes_sent s = locked s (u64 (sum (λ c. c.metadata.bytes_out) s.connections))

-- rtmp_server_get_dropped_frames, on `uint32_t`
unfoldable pub get_dropped_frames : Server → Option ℕ
get_dropped_frames s = locked s (u32 (sum (λ c. c.metadata.dropped_frames) s.connections))

abbrev pub send_to_all : Chunk → List Connection → List Connection
send_to_all chunk [] = []
send_to_all chunk (c ∷ cs) = send_chunks (chunk ∷ []) c ∷ send_to_all chunk cs

abbrev pub broadcast : Chunk → Server → Option Server
broadcast chunk s = locked s (record s { connections = send_to_all chunk s.connections })

-- rtmp_server_set_chunk_size
unfoldable pub set_chunk_size : (size : ℕ) → Server → Option Server
set_chunk_size size s = broadcast (response MessageId.set_chunk_size 0 (be32 size)) s

-- rtmp_server_set_window_ack_size
unfoldable pub set_window_ack_size : (size : ℕ) → Server → Option Server
set_window_ack_size size s = broadcast (response MessageId.window_ack_size 0 (be32 size)) s

-- rtmp_server_set_peer_bandwidth
unfoldable pub set_peer_bandwidth : (window_size limit_type : ℕ) → Server → Option Server
set_peer_bandwidth window_size limit_type s =
    broadcast (response MessageId.set_peer_bw 0 (be32 window_size ++ limit_type ∷ [])) s

unfoldable pub set_connection_callback : Bool → Server → Server
set_connection_callback callback s = record s { has_connection_callback = callback }

-- rtmp_server_set_metadata_callback
unfoldable pub set_metadata_callback : (is_set : Bool) → Server → Server
set_metadata_callback is_set s = record s { has_metadata_callback = is_set }

unfoldable pub set_frame_callback : Bool → Server → Server
set_frame_callback callback s = record s { has_frame_callback = callback }

unfoldable pub set_state_callback : Bool → Server → Server
set_state_callback callback s = record s { has_state_callback = callback }

-- rtmp_server_state_string
unfoldable pub server_state_string : ServerState → Bytes
server_state_string stopped = codes "Stopped"
server_state_string starting = codes "Starting"
server_state_string running = codes "Running"
server_state_string failed = codes "Error"
server_state_string restarting = codes "Restarting"

-- rtmp_connection_state_string
unfoldable pub connection_state_string : ConnectionState → Bytes
connection_state_string ConnectionState.new = codes "New"
connection_state_string ConnectionState.handshake = codes "Handshake"
connection_state_string ConnectionState.connect = codes "Connect"
connection_state_string ConnectionState.create_stream = codes "CreateStream"
connection_state_string ConnectionState.play = codes "Play"
connection_state_string ConnectionState.publishing = codes "Publishing"
connection_state_string ConnectionState.closed = codes "Closed"
