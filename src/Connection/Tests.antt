-- ===== src/Connection/Tests.antt =====
-- Runs of rtmp_core.c on concrete connections, and the theorem about their order at one of them.
use rtmpcamera.Prelude.{◌≤◌, ◌≡◌, refl, true, false, none, some, List, [], ◌∷◌, ◌++◌, length}
use rtmpcamera.Queue.{max_queue_size}
use rtmpcamera.Connection.{Message, create, set_state, handle_error, push}
use rtmpcamera.Connection.Thread.{ready, sends, recv_ends, round, write_message, read_socket, ping}
use rtmpcamera.Connection.Api.{
  Network, connect, disconnect, socket_connect, work, is_connected, publish_start, send_video,
  set_chunk_size, destroy, get_stats,
}
use rtmpcamera.Connection.Order.{
  Op, connects, disconnects, works, starts_publish, sends_video, step, run, accepted, run-accepted,
}

abbrev network : Network
network = record {
  makes_socket = true;
  connects = true;
  starts_thread = true;
  rounds = [];
  shakes_hands = true;
}

-- Two messages wait when the client disconnects; the first is sent once it is connected again.
abbrev ops : List Op
ops =
    connects network
    ∷ starts_publish (some (1 ∷ [])) 10
    ∷ sends_video true (23 ∷ 1 ∷ []) 40
    ∷ disconnects
    ∷ connects network
    ∷ works (ready (some (sends 1)) none 50)
    ∷ []

abbrev command : Message
command = record { contents = 1 ∷ []; type = 20; timestamp = 10; stream_id = 1 }

run-accepted_example :
    ((run ops create).handed ++ (run ops create).send_queue ≡ accepted ops create)
    × (length (run ops create).send_queue ≤ max_queue_size)
run-accepted_example = run-accepted ops

handed-command : (run ops create).handed ≡ command ∷ []
unfolding run step connect socket_connect work set_state publish_start send_video disconnect round
    write_message read_socket ping create push
handed-command = refl

-- The thread ends on an error during the handshake, and the connection counts as connected.
abbrev broken : Network
broken = record network { rounds = ready none (some recv_ends) 50 ∷ [] }

broken-is_connected : is_connected (connect broken create).1 ≡ true
unfolding is_connected connect socket_connect work set_state handle_error round write_message
    read_socket create
broken-is_connected = refl

chunk_size-small : set_chunk_size 127 create ≡ (false, create)
unfolding set_chunk_size create
chunk_size-small = refl

-- The bandwidth is that of all bytes by the time since the last ping.
get_stats-bandwidth :
    (get_stats 2000 (record create { bytes_sent = 5000; last_ping_time = 1000 })).bandwidth_out
    ≡ some (40000, 1000)
unfolding get_stats create
get_stats-bandwidth = refl

destroy-queue : (destroy (record create { send_queue = command ∷ [] })).0 ≡ command ∷ []
unfolding destroy create
destroy-queue = refl
