-- ===== src/Server/Threads.antt =====
-- rtmp_server_integration.c: what the accept thread, the monitor thread, the thread of a connection and
-- a stop do.
use rtmpcamera.Prelude.{
  ℕ, ◌+◌, Bool, true, false, not, Option, none, some, List, [], ◌∷◌, if◌then◌else◌, ◌==◌, ltb, u32,
  sub32,
}
use rtmpcamera.Server.{
  Server, stopped, Connection, ConnectionState, Chunk, make_connection, update_state, timeout_sec,
}
use rtmpcamera.Server.Cleanup.{
  Outcome, done, blocked, used_after_free, cleanup_connection, notify, has,
}
use rtmpcamera.Server.Messages.{Library, handle_message}

-- The new connection at the head of the list, and the callback.
unfoldable pub add_connection : (id socket now : ℕ) → Server → Server
unfolding make_connection
add_connection id socket now s = record s {
  connections = make_connection id socket now ∷ s.connections;
  num_connections = u32 (s.num_connections + 1);
  live = id ∷ s.live;
  events = notify id s;
}

-- One round of rtmp_server_accept_thread behind `accept`: the address that calloc gives, the client's
-- socket, the time, and whether the connection's thread starts.
unfoldable pub accept_connection : (id socket now : ℕ) → (starts_thread : Bool) → Server → Outcome
unfolding add_connection cleanup_connection
accept_connection id socket now starts_thread s =
    if not s.is_running
    then done s
    else if s.held
    then blocked (record s { live = id ∷ s.live })
    else if starts_thread
    then done (add_connection id socket now s)
    else cleanup_connection id (add_connection id socket now s)

-- The first connection that has timed out, and the list without it.
abbrev pub first_timed_out : (now : ℕ) → List Connection → Option (Connection × List Connection)
first_timed_out now [] = none
first_timed_out now (c ∷ cs) =
    let behind = first_timed_out now cs in
    if ltb (c.last_recv_time + timeout_sec) now
    then some (c, cs)
    else elim behind [ none ↦ none | some (found, rest) ↦ some (found, c ∷ rest) ]

-- One round of rtmp_server_monitor_thread, which cleans a connection up under the mutex.
unfoldable pub monitor_round : (now : ℕ) → Server → Outcome
unfolding cleanup_connection
monitor_round now s =
    if not s.is_running
    then done s
    else if s.held
    then blocked s
    else elim (first_timed_out now s.connections) [
      | none ↦ done s
      | some (found, rest) ↦ cleanup_connection found.id (record s {
        connections = rest;
        num_connections = sub32 s.num_connections 1;
        held = true;
      })
    ]

-- A write through the address `id`. A connection that is not in the list any more is not described.
abbrev pub update_connection :
    (id : ℕ) → (Connection → Connection) → List Connection → List Connection
update_connection id f [] = []
update_connection id f (c ∷ cs) = if c.id == id then f c ∷ cs else c ∷ update_connection id f cs

abbrev pub write : (id : ℕ) → (Connection → Connection) → Server → Outcome
write id f s =
    if has id s.live
    then done (record s { connections = update_connection id f s.connections })
    else used_after_free

-- rtmp_server_handle_connection up to its loop.
unfoldable pub begin_connection : (id : ℕ) → (makes_stream shakes_hands : Bool) → Server → Outcome
unfolding cleanup_connection
begin_connection id makes_stream shakes_hands s =
    if not makes_stream
    then cleanup_connection id s
    else if not shakes_hands
    then cleanup_connection id s
    else write id (λ c. record c { state = ConnectionState.handshake }) s

-- The chunks that rtmp_chunk_stream_get_next gives, each with the time of its handling.
unfoldable pub handle_messages :
    Library → (has_callback : Bool) → List (ℕ × Chunk) → Connection → Connection
unfolding handle_message
handle_messages lib has_callback [] c = c
handle_messages lib has_callback ((now, chunk) ∷ chunks) c =
    handle_messages lib has_callback chunks (handle_message lib has_callback now chunk c)

-- One round of the loop of rtmp_server_handle_connection; `none`: rtmp_connection_receive_chunk fails.
unfoldable pub connection_round :
    Library → (id now : ℕ) → Option (List (ℕ × Chunk)) → Server → Outcome
unfolding cleanup_connection handle_messages
connection_round lib id now received s =
    if not s.is_running then cleanup_connection id s else elim received [
      | none ↦ cleanup_connection id s
      | some chunks ↦
          write id
            (λ c. record (handle_messages lib s.has_frame_callback chunks c) {
              last_recv_time = now;
            })
            s
    ]

abbrev pub and_then : Outcome → (Server → Outcome) → Outcome
and_then (done s) f = f s
and_then (blocked s) f = blocked s
and_then used_after_free f = used_after_free

-- The threads of these connections end.
abbrev pub leave : List ℕ → Server → Outcome
leave [] s = done s
leave (id ∷ ids) s = and_then (cleanup_connection id s) (leave ids)

-- The loop of rtmp_server_stop, under the mutex: its first round, since only an empty list leads to
-- a second one.
unfoldable pub close_all : Server → Outcome
unfolding update_state cleanup_connection
close_all s = elim s.connections [
  | [] ↦ done (update_state stopped s)
  | c ∷ cs ↦ cleanup_connection c.id (record s { connections = cs; held = true })
]

-- rtmp_server_stop. The threads of the connections `leaving` end before it locks the mutex.
unfoldable pub stop : (leaving : List ℕ) → Server → Outcome
unfolding close_all cleanup_connection
stop leaving s =
    let stopping = record s { is_running = false; is_listening = false } in
    if not s.is_running
    then done s
    else if s.held
    then blocked stopping
    else and_then (leave leaving stopping) close_all

-- rtmp_server_cleanup, up to the release of the mutex.
unfoldable pub cleanup : (leaving : List ℕ) → Server → Outcome
unfolding stop
cleanup leaving s = stop leaving s
