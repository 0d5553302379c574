-- ===== src/Server/Tests.antt =====
-- Runs of rtmp_server_integration.c on concrete servers, and the theorems at them.
use rtmpcamera.Prelude.{
  ℕ, ◌+◌, ◌≡◌, refl, inl, true, false, none, some, List, [], ◌∷◌, arith, length, run_all, leb, u32,
  u64, codes, ◌++◌,
}
use rtmpcamera.Server.{
  Server, ServerState, Connection, MessageId, Chunk, Startup, initialize, start, make_connection,
  update_state,
}
use rtmpcamera.Server.Cleanup.{done, used_after_free, cleanup_connection, unlinked}
use rtmpcamera.Server.Messages.{
  Amf, string_data, Library, handle_message, handle_publish, handle_video, handle_audio,
  process_handshake,
}
use rtmpcamera.Server.Threads.{
  accept_connection, add_connection, monitor_round, connection_round, stop, close_all,
  handle_messages,
}
use rtmpcamera.Server.Queries.{get_num_connections, close_connection, is_publishing}
use rtmpcamera.Server.Dump.{dump_stats}
use rtmpcamera.Server.Counting.{run-initialize-IsCounted}
use rtmpcamera.Server.Steps.{step, starts, accepts}
use rtmpcamera.Server.Deadlocks.{
  Waiting, Stopped, monitor_round-deadlock, stop-Stopped, close_connection-used_after_free,
}
use rtmpcamera.Server.Media.{media_bytes, Fits, handle_messages-media_bytes, handle_messages-Fits}
use rtmpcamera.Server.Streams.{Publishing, publish-is_publishing}

abbrev ready : Startup
ready = record {
  makes_socket = true;
  sets_option = true;
  binds = true;
  listens = true;
  starts_accept = true;
  starts_monitor = true;
  accept_returns = false;
}

-- Every property of a decoded command is the name "cam".
abbrev names : Amf
names = λ key. some (string_data (codes "cam"))

abbrev library : Library
library = record {
  decode = λ bytes. some names;
  connect_response = 1 ∷ [];
  create_stream_response = 2 ∷ [];
  play_response = 3 ∷ [];
  publish_response = 4 ∷ [];
}

abbrev publish_chunk : Chunk
publish_chunk = record {
  msg_type_id = MessageId.publish;
  msg_stream_id = 1;
  timestamp = 0;
  msg_data = [];
}

abbrev video_chunk : Chunk
video_chunk = record {
  msg_type_id = MessageId.video;
  msg_stream_id = 1;
  timestamp = 40;
  msg_data = 23 ∷ 1 ∷ 2 ∷ [];
}

abbrev audio_chunk : Chunk
audio_chunk = record {
  msg_type_id = MessageId.audio;
  msg_stream_id = 1;
  timestamp = 40;
  msg_data = 175 ∷ 1 ∷ [];
}

-- A video that comes before the publish command does not count.
abbrev chunks : List (ℕ × Chunk)
chunks = (5, video_chunk) ∷ (6, publish_chunk) ∷ (7, video_chunk) ∷ (8, audio_chunk) ∷ []

abbrev client : Connection
client = make_connection 7 4 10

abbrev serving : Server
serving = record initialize {
  state = ServerState.running;
  is_running = true;
  connections = client ∷ [];
  num_connections = 1;
  live = 7 ∷ [];
}

handle_messages-media_bytes_example :
    (handle_messages library true chunks client).metadata.bytes_in
    ≡ u64 (client.metadata.bytes_in + media_bytes library client.is_publisher chunks)
unfolding make_connection
handle_messages-media_bytes_example =
    handle_messages-media_bytes library true chunks client (omega arith)

received-five : (handle_messages library true chunks client).metadata.bytes_in ≡ 5
unfolding handle_messages handle_message handle_publish handle_video handle_audio make_connection
received-five = refl

handle_messages-Fits_example : Fits (handle_messages library true chunks (make_connection 7 4 10))
handle_messages-Fits_example = handle_messages-Fits library true chunks 7 4 10

run-serving :
    run_all step (starts ready 1935 ∷ accepts 7 4 10 true ∷ []) initialize
    ≡ some (record serving { port = 1935 })
unfolding run_all step start update_state accept_connection add_connection make_connection
    initialize
run-serving = refl

run-initialize-IsCounted_example : get_num_connections (record serving { port = 1935 }) ≡ u32 1
unfolding initialize
run-initialize-IsCounted_example =
    run-initialize-IsCounted (starts ready 1935 ∷ accepts 7 4 10 true ∷ [])
      (record serving { port = 1935 }) run-serving refl

monitor_round-deadlock_example : Waiting 4 128 2 7 (codes "cam") (monitor_round 41 serving)
unfolding initialize make_connection
monitor_round-deadlock_example =
    monitor_round-deadlock 41 4 128 2 7 (codes "cam") serving refl refl refl (refl, tt)
      (inl (omega arith))

stop-Stopped_example :
    Stopped (record serving { is_running = false; is_listening = false }) (stop [] serving)
unfolding initialize make_connection
stop-Stopped_example =
    stop-Stopped [] serving (record serving { is_running = false; is_listening = false }) refl refl
      refl (refl, tt)

-- The server behind the client's connection is closed.
abbrev emptied : Server
emptied = record serving { connections = []; num_connections = 0; live = [] }

close_connection-emptied : close_connection 7 serving ≡ done emptied
unfolding close_connection cleanup_connection unlinked initialize make_connection
close_connection-emptied = refl

close_connection-used_after_free_example :
    connection_round library 7 11 none emptied ≡ used_after_free
unfolding initialize
close_connection-used_after_free_example =
    close_connection-used_after_free library 7 11 none serving emptied close_connection-emptied refl

publish-is_publishing_example :
    Publishing
      (codes "cam")
      (leb (length (codes "cam")) 127)
      (connection_round library 7 11 (some ((6, publish_chunk) ∷ [])) serving)
unfolding initialize make_connection is_publishing
publish-is_publishing_example =
    publish-is_publishing library 7 6 11 publish_chunk (codes "cam") names serving refl refl refl
      refl refl refl refl refl

stop-left : Stopped emptied (stop (7 ∷ []) serving)
unfolding stop close_all update_state cleanup_connection unlinked initialize make_connection
stop-left = (refl, refl)

process_handshake-version : process_handshake [] [] [] [] true ≡ (false, [])
unfolding process_handshake
process_handshake-version = refl

-- What an idle server prints.
dump_stats-idle :
    dump_stats initialize
    ≡ some (
        codes "RTMP Server Statistics:"
        ++ (10 ∷ codes "  State: Stopped"
            ++ (10 ∷ codes "  Port: 0" ++ (10 ∷ codes "  Connections: 0" ++ (10 ∷ [])))))
unfolding dump_stats initialize
dump_stats-idle = refl
