-- ===== src/Connection/Api.antt =====
-- rtmp_core.c: the calls of a client.
use rtmpcamera.Prelude.{
  ℕ, Bool, true, false, not, ◌||◌, Option, none, some, List, [], ◌∷◌, if◌then◌else◌, ltb, length,
  ◌==◌, ◌*◌, u32, u64,
}
use rtmpcamera.Connection.{
  Bytes, Connection, Message, State, disconnected, connecting, connected, publishing, is, set_state,
  handle_error, push, max_chunk_size,
}
use rtmpcamera.Connection.Thread.{Select, round}
use rtmpcamera.Connection.Types.{MessageType, type_number}
use rtmpcamera.Utils.{elapsed}

-- rtmp_disconnect: it waits for the thread, and leaves the queue as it is.
unfoldable pub disconnect : Connection → Connection
unfolding set_state
disconnect c =
    set_state disconnected
      (record c { thread_running = false; has_thread = false; is_open = false })

-- What the calls of rtmp_connect give. `rounds` are the rounds of the thread while the handshake
-- runs.
pub record Network : Type 0 where
  pub makes_socket : Bool
  pub connects : Bool
  pub starts_thread : Bool
  pub rounds : List Select
  pub shakes_hands : Bool

unfoldable pub work : List Select → Connection → Connection
unfolding round
work [] c = c
work (r ∷ rs) c = work rs (round r c)

-- rtmp_socket_connect: its result and the connection.
unfoldable pub socket_connect : Network → Connection → Bool × Connection
unfolding handle_error
socket_connect n c =
    if not n.makes_socket
    then (false, handle_error (record c { is_open = false }))
    else if not n.connects
    then (false, handle_error (record c { is_open = true }))
    else (true, record c { is_open = true })

-- rtmp_connect
unfoldable pub connect : Network → Connection → Bool × Connection
unfolding set_state handle_error socket_connect work disconnect
connect n c =
    if not (is c.state disconnected)
    then (false, c)
    else after_socket (socket_connect n (set_state connecting c))
  where
    after_socket : Bool × Connection → Bool × Connection
    after_socket (false, d) = (false, d)
    after_socket (true, d) =
        let failing = handle_error (record d { thread_running = true }) in
        let worked = work n.rounds (record d { thread_running = true; has_thread = true }) in
        if not n.starts_thread
        then (false, record failing { is_open = false; thread_running = false })
        else if not n.shakes_hands
        then (false, disconnect (handle_error worked))
        else (true, set_state connected worked)

-- rtmp_is_connected
unfoldable pub is_connected : Connection → Bool
is_connected c = is c.state connected

-- The message and its push, behind the tests: `made` is none when an allocation or an encoder fails.
abbrev pub enqueue : Option Message → Connection → Bool × Connection
enqueue none c = (false, c)
enqueue (some m) c =
    let (accepted, queue) = push m c.send_queue in (accepted, record c { send_queue = queue })

abbrev pub message : (bytes : Option Bytes) → (type timestamp stream_id : ℕ) → Option Message
message none type timestamp stream_id = none
message (some bytes) type timestamp stream_id =
    some (record { contents = bytes; type = type; timestamp = timestamp; stream_id = stream_id })

abbrev then_state : State → Bool × Connection → Bool × Connection
then_state new_state (false, c) = (false, c)
then_state new_state (true, c) = (true, set_state new_state c)

-- rtmp_publish_start: `encoded` is what rtmp_amf_encode_publish gives.
unfoldable pub publish_start : (encoded : Option Bytes) → (now : ℕ) → Connection → Bool × Connection
unfolding set_state push
publish_start encoded now c =
    if not (is c.state connected)
    then (false, c)
    else then_state publishing
        (enqueue (message encoded (type_number MessageType.command_amf0) (u32 now) c.stream_id) c)

-- rtmp_publish_stop: `encoded` is what rtmp_amf_encode_unpublish gives.
unfoldable pub publish_stop : (encoded : Option Bytes) → (now : ℕ) → Connection → Bool × Connection
unfolding set_state push
publish_stop encoded now c =
    if not (is c.state publishing)
    then (false, c)
    else then_state connected
        (enqueue (message encoded (type_number MessageType.command_amf0) (u32 now) c.stream_id) c)

abbrev send_bytes :
    (type : ℕ) → (allocates : Bool) → Bytes → (timestamp : ℕ) → Connection → Bool × Connection
send_bytes type allocates bytes timestamp c =
    if not (is c.state publishing) || length bytes == 0
    then (false, c)
    else if not allocates
    then (false, c)
    else enqueue (message (some bytes) type (u32 timestamp) c.stream_id) c

-- rtmp_send_video
unfoldable pub send_video :
    (allocates : Bool) → (bytes : Bytes) → (timestamp : ℕ) → Connection → Bool × Connection
unfolding push
send_video allocates bytes timestamp c =
    send_bytes (type_number MessageType.video) allocates bytes timestamp c

-- rtmp_send_audio
unfoldable pub send_audio :
    (allocates : Bool) → (bytes : Bytes) → (timestamp : ℕ) → Connection → Bool × Connection
unfolding push
send_audio allocates bytes timestamp c =
    send_bytes (type_number MessageType.audio) allocates bytes timestamp c

-- rtmp_send_metadata, in any state: `encoded` is what rtmp_amf_encode_metadata gives.
unfoldable pub send_metadata :
    (bytes : Bytes) → (encoded : Option Bytes) → (now : ℕ) → Connection → Bool × Connection
unfolding push
send_metadata bytes encoded now c =
    if length bytes == 0
    then (false, c)
    else enqueue (message encoded (type_number MessageType.data_amf0) (u32 now) c.stream_id) c

unfoldable pub set_state_callback : Bool → Connection → Connection
set_state_callback callback c = record c { has_state_callback = callback }

unfoldable pub set_error_callback : Bool → Connection → Connection
set_error_callback callback c = record c { has_error_callback = callback }

-- rtmp_set_chunk_size; a negative size is refused as 0 is.
unfoldable pub set_chunk_size : (size : ℕ) → Connection → Bool × Connection
set_chunk_size size c =
    if ltb size 128 || ltb max_chunk_size size
    then (false, c)
    else (true, record c { chunk_size = size })

-- rtmp_set_window_size
unfoldable pub set_window_size : (size : ℕ) → Connection → Bool × Connection
set_window_size size c = if size == 0 then (false, c) else (true, record c { window_size = size })

-- rtmp_set_buffer_time
unfoldable pub set_buffer_time : (time_ms : ℕ) → Connection → Bool × Connection
set_buffer_time time_ms c =
    if time_ms == 0 then (false, c) else (true, record c { buffer_time = time_ms })

-- rtmp_destroy: the messages that it frees with the queue, and the connection as it is freed.
unfoldable pub destroy : Connection → List Message × Connection
unfolding disconnect
destroy c = (c.send_queue, record (disconnect c) { send_queue = [] })

-- What rtmp_get_stats stores of a `rtmp_stats_t`. A bandwidth is a quotient, which the program rounds
-- to `float`; `none` is a field that is not stored.
pub record Stats : Type 0 where
  pub bytes_sent : ℕ
  pub bytes_received : ℕ
  pub messages_sent : ℕ
  pub messages_received : ℕ
  pub current_chunk_size : ℕ
  pub current_window_size : ℕ
  pub current_buffer_time : ℕ
  pub state : State
  pub bandwidth_in : Option (ℕ × ℕ)
  pub bandwidth_out : Option (ℕ × ℕ)

-- `bytes * 8` on `uint64_t`, by the time.
abbrev pub bandwidth : (bytes elapsed : ℕ) → Option (ℕ × ℕ)
bandwidth bytes elapsed = if elapsed == 0 then none else some (u64 (bytes * 8), elapsed)

-- rtmp_get_stats
unfoldable pub get_stats : (now : ℕ) → Connection → Stats
unfolding elapsed
get_stats now c =
    let passed = elapsed c.last_ping_time now in
    record {
      bytes_sent = c.bytes_sent;
      bytes_received = c.bytes_received;
      messages_sent = c.messages_sent;
      messages_received = c.messages_received;
      current_chunk_size = c.chunk_size;
      current_window_size = c.window_size;
      current_buffer_time = c.buffer_time;
      state = c.state;
      bandwidth_in = bandwidth c.bytes_received passed;
      bandwidth_out = bandwidth c.bytes_sent passed;
    }
