-- ===== src/Server/Deadlocks.antt =====
-- rtmp_server_integration.c: the threads that wait for the mutex that they hold, and the connection that
-- is freed twice.
use rtmpcamera.Prelude.{
  ℕ, ◌+◌, ◌<◌, ◌≡◌, ◌≢◌, ◌⊎◌, inl, inr, true, false, Option, none, some, List, [], ◌∷◌, arith,
}
use rtmpcamera.Server.{Bytes, Server, ServerState, Connection, Chunk, update_state, timeout_sec}
use rtmpcamera.Server.Cleanup.{
  Outcome, done, blocked, used_after_free, cleanup_connection, unlinked, has, release,
}
use rtmpcamera.Server.Messages.{Library}
use rtmpcamera.Server.Threads.{
  monitor_round, connection_round, stop, close_all, leave, first_timed_out,
}
use rtmpcamera.Server.Queries.{
  get_connection, close_connection, is_publishing, get_stream_info, get_bytes_received,
  get_bytes_sent, get_dropped_frames, set_chunk_size, set_window_ack_size, set_peer_bandwidth,
}

-- Every listed connection is allocated.
abbrev pub AllLive : (live : List ℕ) → List Connection → Type 0
AllLive live [] = Unit {0}
AllLive live (c ∷ cs) = (has c.id live ≡ true) × AllLive live cs

-- One of them has not been heard of for more than RTMP_TIMEOUT_SEC.
abbrev pub SomeLate : (now : ℕ) → List Connection → Type 0
SomeLate now [] = ⊥
SomeLate now (c ∷ cs) = (c.last_recv_time + timeout_sec < now) ⊎ SomeLate now cs

-- What the other threads and the clients meet when a thread waits for the mutex that it holds.
abbrev pub Waiting : (socket size limit id : ℕ) (name : Bytes) → Outcome → Type 0
Waiting socket size limit id name (blocked s) =
    (s.held ≡ true)
    × (get_connection socket s ≡ none)
    × (is_publishing name s ≡ none)
    × (get_stream_info name s ≡ none)
    × (get_bytes_received s ≡ none)
    × (get_bytes_sent s ≡ none)
    × (get_dropped_frames s ≡ none)
    × (set_chunk_size size s ≡ none)
    × (set_window_ack_size size s ≡ none)
    × (set_peer_bandwidth size limit s ≡ none)
    × (stop [] s ≡ blocked (record s { is_running = false; is_listening = false }))
    × (close_connection id s ≡ blocked s)
Waiting socket size limit id name _ = ⊥

IsLate : (live : List ℕ) → Option (Connection × List Connection) → Type 0
IsLate live none = ⊥
IsLate live (some (found, rest)) = has found.id live ≡ true

first_timed_out-IsLate :
    (now : ℕ) (live : List ℕ) (cs : List Connection)
    → SomeLate now cs
    → AllLive live cs
    → IsLate live (first_timed_out now cs)
unfolding IsLate
first_timed_out-IsLate now live [] l a = absurd l
first_timed_out-IsLate now live (c ∷ cs) (inl l) a = ground arith
first_timed_out-IsLate now live (c ∷ cs) (inr l) a =
    ground (arith, first_timed_out-IsLate now live cs l a.1)

-- When a connection of a running server times out, all listed ones being allocated and the mutex
-- free, the round of the monitor thread waits for ever for the mutex that it holds. From then on none
-- of these returns: rtmp_server_get_connection, is_publishing, get_stream_info, get_bytes_received,
-- get_bytes_sent, get_dropped_frames, set_chunk_size, set_window_ack_size, set_peer_bandwidth,
-- close_connection on an allocated connection, and stop.
pub monitor_round-deadlock :
    (now socket size limit id : ℕ) (name : Bytes) (s : Server)
    → s.is_running ≡ true
    → s.held ≡ false
    → has id s.live ≡ true
    → AllLive s.live s.connections
    → SomeLate now s.connections
    → Waiting socket size limit id name (monitor_round now s)
unfolding monitor_round cleanup_connection get_connection is_publishing get_stream_info
    get_bytes_received get_bytes_sent get_dropped_frames set_chunk_size set_window_ack_size
    set_peer_bandwidth stop close_connection IsLate
monitor_round-deadlock now socket size limit id name s r h own a l =
    ground (arith, first_timed_out-IsLate now s.live s.connections l a)

-- rtmp_server_stop on a server whose connection threads have left `t` behind.
abbrev pub Stopped : Server → Outcome → Type 0
Stopped t (done u) = (t.connections ≡ []) × (u.state ≡ ServerState.stopped)
Stopped t (blocked u) = (t.connections ≢ []) × (u.held ≡ true)
Stopped t used_after_free = ⊥

stop-close_all :
    (leaving : List ℕ) (s t : Server)
    → s.is_running ≡ true
    → s.held ≡ false
    → leave leaving (record s { is_running = false; is_listening = false }) ≡ done t
    → stop leaving s ≡ close_all t
unfolding stop
stop-close_all leaving s t r h e = ground (arith, e)

close_all-Stopped : (t : Server) → AllLive t.live t.connections → Stopped t (close_all t)
unfolding close_all update_state cleanup_connection
close_all-Stopped t a = ground arith

-- On a running server whose mutex is free and whose listed connections are allocated,
-- rtmp_server_stop returns, with the state STOPPED, exactly when the threads of all connections
-- end by themselves while it waits for its own threads; otherwise it locks the mutex that it
-- holds.
pub stop-Stopped :
    (leaving : List ℕ) (s t : Server)
    → s.is_running ≡ true
    → s.held ≡ false
    → leave leaving (record s { is_running = false; is_listening = false }) ≡ done t
    → AllLive t.live t.connections
    → Stopped t (stop leaving s)
stop-Stopped leaving s t r h e a = rw (stop-close_all leaving s t r h e) (close_all-Stopped t a)

close_connection-live :
    (id : ℕ) (s t : Server)
    → close_connection id s ≡ done t
    → has id (release id s.live) ≡ false
    → has id t.live ≡ false
unfolding close_connection cleanup_connection unlinked
close_connection-live id s t e once = ground (arith, e)

-- A connection that a client closes, and whose address is not allocated a second time, is freed,
-- and its own thread then uses it: in its next round, be it that the server has stopped, that
-- nothing comes, or that messages come.
pub close_connection-used_after_free :
    (lib : Library) (id now : ℕ) (received : Option (List (ℕ × Chunk))) (s t : Server)
    → close_connection id s ≡ done t
    → has id (release id s.live) ≡ false
    → connection_round lib id now received t ≡ used_after_free
unfolding connection_round cleanup_connection
close_connection-used_after_free lib id now received s t e once =
    ground (arith, close_connection-live id s t e once)
