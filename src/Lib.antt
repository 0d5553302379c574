-- ===== src/Lib.antt =====
-- RTMPCamera: the C core of an RTMP client for iOS.
--
-- The program's parts
--   rtmp_amf.c encodes and decodes AMF0 values; rtmp_chunk.c frames messages in chunks;
--   rtmp_session.c runs a client session with a worker thread on top of a connection;
--   rtmp_core.c is a connection with its queues of messages; rtmp_quality.c adapts the video's bit
--   rate and frame rate to what the other parts measure; rtmp_failover.c switches to another server,
--   network or a local recording. rtmp_stability.c watches a connection with heartbeats and
--   reconnects it. rtmp_protocol.c is a second client connection, with a handshake and packets of its
--   own, over the packets and AMF functions of rtmp_utils.c. rtmp_server_integration.c is a server
--   with a list of connections and a thread for each. rtmp_stream.c is a stream over such a
--   connection, with statistics and a quality of its own. rtmp_handshake.c is the handshake with
--   digests of rtmp_core.c and rtmp_session.c. rtmp_diagnostics.c logs and times operations, and
--   rtmp_commands.c builds commands. The Objective-C files put the C code into the camera
--   application.
--
-- The modules
--   Prelude   Boolean tests, lists and options over the native numbers, fixed-width arithmetic,
--             runs of operations, decimal numbers.
--   Amf       rtmp_amf.c. Amf is `rtmp_amf_value_t` and the byte order; Amf.Encode the encoders
--             `rtmp_amf_encode_*`; Amf.Decode `rtmp_amf_decode_*`; Amf.Copy `rtmp_amf_value_copy`;
--             Amf.Free `rtmp_amf_value_free`.
--             Amf.Wire is the AMF0 format, written without the code; Amf.RoundTrip, Total, Emits,
--             Commands, LongName and Copied are about the code.
--   Chunk     rtmp_chunk.c. Chunk has the headers, the contexts and the basic header; Chunk.Write
--             `rtmp_chunk_write_header` and `rtmp_chunk_write`; Chunk.Read
--             `rtmp_chunk_read_header` and `rtmp_chunk_read`. Chunk.Wire is the chunk format;
--             Chunk.Fields, Limits, Sending, Message, Receiving, Reassembly, Repeats and Faults are about
--             the code.
--   Queue     the message queue of rtmp_core.c, linked through a heap: `rtmp_queue_push`,
--             `rtmp_queue_pop` and `rtmp_queue_destroy`. Queue.Chain, Fifo and Destroy are about it.
--   Connection  the rest of rtmp_core.c, over the queue as a list. Connection has the state;
--             Connection.Types the types of messages; Connection.Thread a round of `rtmp_thread_func`; Connection.Api the calls of a
--             client. Connection.Order is about sequences of calls and rounds, Connection.Linked about
--             the list and the linked queue.
--   Commands  rtmp_commands.c. Commands has the command; Commands.Build, Encode, Decode and Process the
--             functions `rtmp_command_*`. Commands.Encoded, Received and Frees are about them.
--   Handshake rtmp_handshake.c, over the digest of a library. Handshake.Digests and
--             Proven are about it.
--   Stream    rtmp_stream.c. Stream has the stream and its buffers; Stream.Url the addresses that
--             `rtmp_stream_connect` reads and prints; Stream.Metadata, Settings, Control and Media
--             the functions `rtmp_stream_*`. Stream.Adaptive is about `check_quality`, Stream.Fixed
--             and Unchanged about sequences of calls, Stream.Url.Reads about addresses.
--   Diagnostics  rtmp_diagnostics.c. Diagnostics.Lifecycle has its beginning and end and the calls of the
--             log; Diagnostics.Timings is about the timings.
--   Failover  rtmp_failover.c. Failover has the handler and the searches for a server or network;
--             Failover.Health the operations under the mutex and the health check thread.
--             Failover.Outcomes and Attempts are about the code.
--   Quality   rtmp_quality.c. Quality has the controller and its setters; Quality.Targets the
--             optimal targets and the levels; Quality.Adjust the tests and the adjustment.
--   Session   rtmp_session.c. Session has the session, its state and its mutex; Session.Api the
--             calls of a client; Session.Worker one round of the worker thread. Session.Reachable
--             is about sequences of calls and rounds.
--   Stability rtmp_stability.c. Stability has the monitor and its recovery modes; Stability.Watchdog the
--             calls of a client and the rounds of `watchdog_thread`. Stability.Heartbeat and
--             Recovery are about sequences of rounds and calls.
--   Utils     rtmp_utils.c: packets, `amf_encode_*` and `amf_decode_*`, and `rtmp_perf_*`.
--             Utils.Logging has the log and the clock. Utils.Strings and Perf are about the others.
--   Protocol  rtmp_protocol.c. Protocol has the context, `rtmp_connect` and its handshake;
--             Protocol.Packets `rtmp_send_packet`, `rtmp_read_packet` and `rtmp_handle_packet`.
--             Protocol.Handshake, Exchange and Announced are about the code; Announced joins it
--             to the server.
--   Server    rtmp_server_integration.c. Server has the connections and the server;
--             Server.Cleanup `rtmp_server_cleanup_connection`; Server.Messages the handlers `rtmp_handle_*`;
--             Server.Threads the rounds of the accept, monitor and connection threads and
--             `rtmp_server_stop`; Server.Queries and Dump the calls of a client. Server.Steps has the
--             operations in turn; Server.Counting, Deadlocks, Media and Streams are about the code.
--
-- State and effects
--   A record stands for a struct. An operation takes the state and gives the new one. What a socket,
--   the clock, another library or an uninitialised variable gives is an argument. `none` or
--   a constructor says that the code reads or writes out of bounds, divides by zero, or waits for
--   a mutex for ever. Unsigned arithmetic wraps as in C.
--
-- Fuel
--   rtmp_amf_decode_value and rtmp_amf_decode_object run on fuel; more than the length of the buffer
--   is enough, since each call and each round of the loop reads at least one byte. The payload loop of
--   rtmp_chunk_write, which rtmp_send_packet repeats, runs on fuel; more than the number of bytes is
--   enough, if the chunk size is positive. The loop of rtmp_queue_destroy runs on fuel; the number of messages is enough. Other
--   loops recurse on a list.
--
-- Not modelled
--   Functions that are called and defined in no file are parameters, or their results are arguments:
--   `write_be24`, `rtmp_amf_decode_array`, `rtmp_send_ack`, `amf_object_*`, `amf_encode_command`,
--   `amf_encode_metadata`, `rtmp_string_duplicate`, `rtmp_calloc`, `rtmp_connection_send_chunk`,
--   `rtmp_connection_receive_chunk`, `rtmp_chunk_stream_*`, and the AMF functions of the server.
--   The conversions between integers and `double` are parameters, and a bandwidth that is a `float`
--   is given as a quotient. Failures of malloc (but where a result depends on them), the release of
--   memory that nothing can use wrongly, the text of log output of other files, and the locking of
--   calls that run to their end are left out. The HMAC of rtmp_handshake.c is a parameter.
--   rtmp_stream_get_bitrate, which scales a number to `float`, is left out. The Objective-C and
--   Logos files, with the header rtmp_camera_compat.h, drive the platform's camera and views and are
--   not modelled.
pub mod Amf
pub mod Chunk
pub mod Commands
pub mod Connection
pub mod Diagnostics
pub mod Failover
pub mod Handshake
pub mod Prelude
pub mod Protocol
pub mod Quality
pub mod Queue
pub mod Server
pub mod Session
pub mod Stability
pub mod Stream
pub mod Utils
