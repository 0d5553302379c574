-- ===== src/Server/Counting.antt =====
-- rtmp_server_integration.c: the connection list and its count, over any sequence of operations.
use rtmpcamera.Prelude.{
  ℕ, ◌+◌, ◌≡◌, refl, ◌⊎◌, inr, Bool, true, false, Option, none, some, List, [], ◌∷◌, arith, length,
  u32, OptionAll, run_all, run_all-keeps,
}
use rtmpcamera.Server.{Server, Connection, ConnectionState, Chunk, start, initialize, update_state}
use rtmpcamera.Server.Cleanup.{
  Outcome, done, blocked, used_after_free, cleanup_connection, unlinked, unlink,
}
use rtmpcamera.Server.Messages.{Library}
use rtmpcamera.Server.Threads.{
  accept_connection, monitor_round, begin_connection, connection_round, stop, close_all, leave,
  and_then, add_connection, first_timed_out, update_connection, write, handle_messages,
}
use rtmpcamera.Server.Queries.{
  close_connection, set_chunk_size, set_window_ack_size, set_peer_bandwidth, send_to_all, broadcast,
  set_connection_callback, set_metadata_callback, set_frame_callback, set_state_callback,
  get_num_connections,
}
use rtmpcamera.Server.Steps.{
  Op, starts, accepts, monitors, begins, receives, closes, stops, sets_chunk_size,
  sets_window_ack_size, sets_peer_bandwidth, sets_connection_callback, sets_metadata_callback,
  sets_frame_callback, sets_state_callback, step, server_of,
}

-- The count is the list's length, until a thread waits for the mutex that it holds.
abbrev pub IsCounted : Server → Type 0
IsCounted s = (s.held ≡ true) ⊎ (s.num_connections ≡ u32 (length s.connections))

abbrev OutcomeCounted : Outcome → Type 0
OutcomeCounted (done s) = IsCounted s
OutcomeCounted (blocked s) = IsCounted s
OutcomeCounted used_after_free = Unit {0}

length-unlink :
    (id : ℕ) (cs : List Connection) → OptionAll (λ ds. length cs ≡ length ds + 1) (unlink id cs)
length-unlink id [] = tt
length-unlink id (c ∷ cs) = ground (arith, length-unlink id cs)

length-update :
    (id : ℕ) (f : Connection → Connection) (cs : List Connection)
    → length (update_connection id f cs) ≡ length cs
length-update id f [] = refl
length-update id f (c ∷ cs) = ground (arith, length-update id f cs)

length-send_to_all :
    (chunk : Chunk) (cs : List Connection) → length (send_to_all chunk cs) ≡ length cs
length-send_to_all chunk [] = refl
length-send_to_all chunk (c ∷ cs) = ground (arith, length-send_to_all chunk cs)

length-first_timed_out :
    (now : ℕ) (cs : List Connection)
    → OptionAll (λ r. length cs ≡ length r.1 + 1) (first_timed_out now cs)
length-first_timed_out now [] = tt
length-first_timed_out now (c ∷ cs) = ground (arith, length-first_timed_out now cs)

unlinked-IsCounted : (id : ℕ) (s : Server) → IsCounted s → IsCounted (unlinked id s)
unfolding unlinked
unlinked-IsCounted id s w = ground (arith, length-unlink id s.connections)

cleanup-IsCounted : (id : ℕ) (s : Server) → IsCounted s → OutcomeCounted (cleanup_connection id s)
unfolding cleanup_connection
cleanup-IsCounted id s w = ground (arith, unlinked-IsCounted id s w)

add-IsCounted :
    (id socket now : ℕ) (s : Server) → IsCounted s → IsCounted (add_connection id socket now s)
unfolding add_connection
add-IsCounted id socket now s w = ground arith

accept-IsCounted :
    (id socket now : ℕ) (starts_thread : Bool) (s : Server)
    → IsCounted s
    → OutcomeCounted (accept_connection id socket now starts_thread s)
unfolding accept_connection
accept-IsCounted id socket now starts_thread s w =
    let added = add_connection id socket now s in
    ground (
      arith,
      cleanup-IsCounted id added (add-IsCounted id socket now s w),
      add-IsCounted id socket now s w,
    )

monitor-IsCounted : (now : ℕ) (s : Server) → IsCounted s → OutcomeCounted (monitor_round now s)
unfolding monitor_round cleanup_connection
monitor-IsCounted now s w = ground arith

write-IsCounted :
    (id : ℕ) (f : Connection → Connection) (s : Server)
    → IsCounted s
    → OutcomeCounted (write id f s)
write-IsCounted id f s w = ground (arith, length-update id f s.connections)

begin-IsCounted :
    (id : ℕ) (makes_stream shakes_hands : Bool) (s : Server)
    → IsCounted s
    → OutcomeCounted (begin_connection id makes_stream shakes_hands s)
unfolding begin_connection
begin-IsCounted id makes_stream shakes_hands s w = ground (
  arith,
  cleanup-IsCounted id s w,
  write-IsCounted id (λ c. record c { state = ConnectionState.handshake }) s w,
)

round-IsCounted :
    (lib : Library) (id now : ℕ) (received : Option (List (ℕ × Chunk))) (s : Server)
    → IsCounted s
    → OutcomeCounted (connection_round lib id now received s)
unfolding connection_round
round-IsCounted lib id now none s w = ground (arith, cleanup-IsCounted id s w)
round-IsCounted lib id now (some chunks) s w =
    let handled : Connection → Connection =
      λ c. record (handle_messages lib s.has_frame_callback chunks c) { last_recv_time = now } in
    ground (arith, cleanup-IsCounted id s w, write-IsCounted id handled s w)

then-IsCounted :
    (o : Outcome) (f : Server → Outcome)
    → OutcomeCounted o
    → ((s : Server) → IsCounted s → OutcomeCounted (f s))
    → OutcomeCounted (and_then o f)
then-IsCounted (done s) f w g = g s w
then-IsCounted (blocked s) f w g = w
then-IsCounted used_after_free f w g = tt

leave-IsCounted : (ids : List ℕ) (s : Server) → IsCounted s → OutcomeCounted (leave ids s)
leave-IsCounted [] s w = w
leave-IsCounted (id ∷ ids) s w =
    then-IsCounted (cleanup_connection id s) (leave ids) (cleanup-IsCounted id s w)
      (leave-IsCounted ids)

close_all-IsCounted : (s : Server) → IsCounted s → OutcomeCounted (close_all s)
unfolding close_all update_state cleanup_connection
close_all-IsCounted s w = ground arith

stop-IsCounted : (leaving : List ℕ) (s : Server) → IsCounted s → OutcomeCounted (stop leaving s)
unfolding stop
stop-IsCounted leaving s w =
    let stopping = record s { is_running = false; is_listening = false } in
    ground (
      arith,
      then-IsCounted (leave leaving stopping) close_all (leave-IsCounted leaving stopping w)
          close_all-IsCounted,
    )

broadcast-IsCounted :
    (chunk : Chunk) (s : Server) → IsCounted s → OptionAll IsCounted (broadcast chunk s)
broadcast-IsCounted chunk s w = ground (arith, length-send_to_all chunk s.connections)

of-IsCounted : (o : Outcome) → OutcomeCounted o → OptionAll IsCounted (server_of o)
of-IsCounted (done s) w = w
of-IsCounted (blocked s) w = w
of-IsCounted used_after_free w = tt

step-IsCounted : (op : Op) (s : Server) → IsCounted s → OptionAll IsCounted (step op s)
unfolding step start update_state close_connection set_chunk_size set_window_ack_size
    set_peer_bandwidth set_connection_callback set_metadata_callback set_frame_callback
    set_state_callback
step-IsCounted (starts e port) s w = ground arith
step-IsCounted (accepts id socket now b) s w = of-IsCounted _ (accept-IsCounted id socket now b s w)
step-IsCounted (monitors now) s w = of-IsCounted _ (monitor-IsCounted now s w)
step-IsCounted (begins id b d) s w = of-IsCounted _ (begin-IsCounted id b d s w)
step-IsCounted (receives lib id now r) s w = of-IsCounted _ (round-IsCounted lib id now r s w)
step-IsCounted (closes id) s w = of-IsCounted _ (cleanup-IsCounted id s w)
step-IsCounted (stops leaving) s w = of-IsCounted _ (stop-IsCounted leaving s w)
step-IsCounted (sets_chunk_size size) s w = broadcast-IsCounted _ s w
step-IsCounted (sets_window_ack_size size) s w = broadcast-IsCounted _ s w
step-IsCounted (sets_peer_bandwidth size type) s w = broadcast-IsCounted _ s w
step-IsCounted (sets_connection_callback b) s w = w
step-IsCounted (sets_metadata_callback b) s w = w
step-IsCounted (sets_frame_callback b) s w = w
step-IsCounted (sets_state_callback b) s w = w

-- However the threads and the clients of a server take turns, behind any sequence of their
-- operations from rtmp_server_initialize the connection count is the length of the list (modulo
-- 2^32), as long as no thread waits for the mutex that it holds.
pub run-initialize-IsCounted :
    (ops : List Op) (s : Server)
    → run_all step ops initialize ≡ some s
    → s.held ≡ false
    → get_num_connections s ≡ u32 (length s.connections)
unfolding initialize get_num_connections
run-initialize-IsCounted ops s e free =
    ground (arith, run_all-keeps step IsCounted step-IsCounted ops initialize s (inr refl) e)
