-- ===== src/Protocol/Tests.antt =====
-- Runs of rtmp_protocol.c on concrete packets, and the theorems at them.
use rtmpcamera.Prelude.{
  ℕ, ◌≡◌, refl, Bool, true, false, none, some, List, [], ◌∷◌, ◌++◌, arith, codes, be32,
}
use rtmpcamera.Utils.{Packet, zeros, decode_string, decode_number}
use rtmpcamera.Chunk.{Header}
use rtmpcamera.Chunk.Write.{returned, continuation_header, message_header, send_payload}
use rtmpcamera.Chunk.Wire.{last}
use rtmpcamera.Chunk.Sending.{Sent}
use rtmpcamera.Protocol.{
  Bytes, Context, Peer, State, create, rtmp_connect, is_connected, disconnect,
}
use rtmpcamera.Protocol.Packets.{
  payload, send_packet, read_packet, count_bytes, handle_packet, handle_command_message,
}
use rtmpcamera.Protocol.Handshake.{rtmp_connect-overruns}
use rtmpcamera.Protocol.Exchange.{packet_of, send_packet-Sent, read_packet-Split}
use rtmpcamera.Protocol.Announced.{Announced, set_chunk_size-handle_packet}
use rtmpcamera.Server.{MessageId, Server, initialize, make_connection}
use rtmpcamera.Server.Messages.{response}
use rtmpcamera.Server.Queries

-- A server that answers the handshake in two pieces.
abbrev peer : Peer
peer = record {
  makes_socket = true;
  parses_host = true;
  connects = true;
  clock = 1 ∷ 2 ∷ 3 ∷ 4 ∷ [];
  random = zeros 1528;
  c0c1 = true;
  pieces = (3 ∷ zeros 1536) ∷ zeros 1536 ∷ [];
  c2 = true;
}

abbrev fresh : Context
fresh = create (zeros 3072)

rtmp_connect-overruns_example : rtmp_connect peer fresh ≡ none
unfolding create
rtmp_connect-overruns_example =
    rtmp_connect-overruns peer fresh refl refl refl refl refl refl refl
      (omega arith, omega arith, (omega arith, omega arith, refl))

-- A connected client.
abbrev client : Context
client = record fresh { is_open = true; state = State.connect }

abbrev audio : Packet
audio = record {
  contents = some (175 ∷ 1 ∷ 7 ∷ []);
  size = 3;
  timestamp = 20;
  type = 8;
  stream_id = 1;
}

abbrev takes : List Bytes → Bytes → Bool
takes sent bytes = true

send_packet-Sent_example :
    Sent client.chunk_size
      (continuation_header audio.type)
      (payload audio)
      ((8 ∷ []) ∷ [])
      (send_packet takes 9 audio client)
unfolding create payload
send_packet-Sent_example =
    send_packet-Sent takes (λ sent bytes. refl) 9 audio client refl (omega arith) (omega arith)

-- Two sends: the basic header, and the payload.
sent-audio : send_packet takes 9 audio client ≡ returned true ((8 ∷ []) ∷ (175 ∷ 1 ∷ 7 ∷ []) ∷ [])
unfolding send_packet send_payload payload create
sent-audio = refl

abbrev header : Header
header = record { timestamp = 20; message_length = 3; message_type = 8; message_stream_id = 1 }

read_packet-Split_example :
    read_packet audio client ((6 ∷ []) ∷ message_header header 0 ∷ ((1 ∷ 2 ∷ 3 ∷ []) ∷ []) ++ [])
    ≡ (true, packet_of header (1 ∷ 2 ∷ 3 ∷ []), count_bytes 15 client, [])
unfolding create
read_packet-Split_example =
    read_packet-Split 6 0 header (1 ∷ 2 ∷ 3 ∷ []) audio client ((1 ∷ 2 ∷ 3 ∷ []) ∷ []) []
      (omega arith) (omega arith, omega arith, omega arith, omega arith) refl refl (omega arith)
      (last (omega arith) (omega arith))

abbrev numbers : MessageId → ℕ
numbers id = 1

abbrev served : Server
served = record initialize {
  connections = make_connection 7 4 10 ∷ [];
  num_connections = 1;
  live = 7 ∷ [];
}

abbrev told : Server
told = record served {
  connections =
      Queries.send_to_all (response MessageId.set_chunk_size 0 (be32 4096)) served.connections;
}

told-sent : Queries.set_chunk_size 4096 served ≡ some told
unfolding Queries.set_chunk_size initialize make_connection
told-sent = refl

set_chunk_size-handle_packet_example :
    Announced numbers client
      (record client { chunk_size = 4096 })
      served.connections
      told.connections
set_chunk_size-handle_packet_example =
    set_chunk_size-handle_packet numbers 4096 served told client refl (omega arith) told-sent

-- "_result", and the transaction 0.
abbrev result : Packet
result = record {
  contents = some (2 ∷ 0 ∷ 7 ∷ codes "_result" ++ (0 ∷ zeros 8));
  size = 19;
  timestamp = 0;
  type = 20;
  stream_id = 0;
}

result-connected : handle_packet result client ≡ some (record client { state = State.connected })
unfolding handle_packet handle_command_message decode_string decode_number create
result-connected = refl

disconnect-is_connected : is_connected (disconnect client) ≡ false
unfolding is_connected disconnect
disconnect-is_connected = refl
