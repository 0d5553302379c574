-- ===== src/Protocol.antt =====
-- rtmp_protocol.c and rtmp_protocol.h: the connection of a client, its handshake and its packets.
--
-- The socket is a parameter: what its sends accept, and the pieces that its receives give, one a
-- call. `none` is a read or a write out of bounds. rtmp_send_ack, amf_object_* and
-- amf_encode_command are in no file of the repository: their calls are logged or their results
-- given. The settings, which only the connect command reads, are left out.
pub mod Packets
pub mod Handshake
pub mod Exchange
pub mod Announced
mod Tests
use rtmpcamera.Prelude.{
  ℕ, zero, suc, ◌+◌, ◌-◌, ◌*◌, Bool, true, false, not, ◌&&◌, Option, none, some, List, [], ◌∷◌,
  ◌++◌, if◌then◌else◌, ◌==◌, length, take, drop, ◌>>=◌,
}
use rtmpcamera.Utils.{Packet}
use rtmpcamera.Chunk.Write.{store}

abbrev pub Bytes : Type 0
Bytes = List ℕ

abbrev pub version : ℕ
version = 3

abbrev pub handshake_size : ℕ
handshake_size = 1536

abbrev pub default_chunk_size : ℕ
default_chunk_size = 128

pub data State : Type 0 where
  disconnected handshake_init handshake_ack connect create_stream publish play connected : State

-- `is_open` is `socket >= 0`. The logs are the calls of onStateChange, of onPacket and of
-- rtmp_send_ack.
pub record Context : Type 0 where
  pub is_open : Bool
  pub state : State
  pub chunk_size : ℕ
  pub stream_id : ℕ
  pub num_invokes : ℕ
  pub window_ack_size : ℕ
  pub bytes_received : ℕ
  pub last_ack_size : ℕ
  pub handshake_buffer : Bytes
  pub has_state_callback : Bool
  pub has_packet_callback : Bool
  pub states : List State
  pub packets : List Packet
  pub acks : List ℕ

-- rtmp_create; `memory` are the 3072 bytes that malloc gives.
unfoldable pub create : (memory : Bytes) → Context
create memory = record {
  is_open = false;
  state = disconnected;
  chunk_size = default_chunk_size;
  stream_id = 0;
  num_invokes = 0;
  window_ack_size = 2500000;
  bytes_received = 0;
  last_ack_size = 0;
  handshake_buffer = memory;
  has_state_callback = false;
  has_packet_callback = false;
  states = [];
  packets = [];
  acks = [];
}

abbrev pub notify : State → Context → List State
notify new_state ctx = if ctx.has_state_callback then ctx.states ++ new_state ∷ [] else ctx.states

-- rtmp_disconnect
unfoldable pub disconnect : Context → Context
disconnect ctx = record ctx {
  is_open = false;
  state = disconnected;
  stream_id = 0;
  num_invokes = 0;
  bytes_received = 0;
  last_ack_size = 0;
  states = notify disconnected ctx;
}

-- rtmp_destroy: the connection as it is freed, with the buffer freed before it.
unfoldable pub destroy : Context → Context × Bytes
unfolding disconnect
destroy ctx = (disconnect ctx, ctx.handshake_buffer)

abbrev pub is_last : State → Bool
is_last connected = true
is_last _ = false

-- rtmp_is_connected: RTMP_STATE_CONNECTED is the last of the states.
unfoldable pub is_connected : Context → Bool
is_connected ctx = ctx.is_open && is_last ctx.state

-- handshake_c0c1 before its send: `clock` are four bytes, `random` the 1528 behind the zeros.
unfoldable pub write_c0c1 : (clock random : Bytes) → (buffer : Bytes) → Option Bytes
write_c0c1 clock random buffer = store 0 (version ∷ clock ++ (0 ∷ 0 ∷ 0 ∷ 0 ∷ random)) buffer

pub data Received : Type 0 where
  overruns : Received
  fails received : (buffer : Bytes) → Received

-- The loop of handshake_s0s1s2. A receive gives no more than the `remaining` bytes; an empty piece,
-- or none, is one that fails.
unfoldable pub receive_s0s1s2 :
    (pos remaining : ℕ) → (buffer : Bytes) → (pieces : List Bytes) → Received
receive_s0s1s2 pos zero buffer pieces = received buffer
receive_s0s1s2 pos (suc n) buffer [] = fails buffer
receive_s0s1s2 pos (suc n) buffer (piece ∷ pieces) =
    let bytes = take (suc n) piece in
    let next : Bytes → Received =
      λ b. receive_s0s1s2 (pos + length bytes) (suc n - length bytes) b pieces in
    if length bytes == 0
    then fails buffer
    else elim (store pos bytes buffer) [ none ↦ overruns | some b ↦ next b ]

-- What the calls of rtmp_connect give: `c0c1` and `c2` are whether their sends take all bytes.
pub record Peer : Type 0 where
  pub makes_socket : Bool
  pub parses_host : Bool
  pub connects : Bool
  pub clock : Bytes
  pub random : Bytes
  pub c0c1 : Bool
  pub pieces : List Bytes
  pub c2 : Bool

abbrev has_version : Bytes → Bool
has_version [] = false
has_version (b ∷ bs) = b == version

-- rtmp_connect from the receives on. handshake_c2 moves S1 to the buffer's start, and sends it.
unfoldable pub finish_handshake : Peer → Context → Received → Option (Bool × Context)
unfolding disconnect
finish_handshake peer ctx (fails buffer) =
    some (false, disconnect (record ctx { handshake_buffer = buffer }))
finish_handshake peer ctx overruns = none
finish_handshake peer ctx (received buffer) =
    let moved = record ctx {
      handshake_buffer = take handshake_size (drop 1 buffer) ++ drop handshake_size buffer;
    } in
    if not (has_version buffer)
    then some (false, disconnect (record ctx { handshake_buffer = buffer }))
    else if not peer.c2
    then some (false, disconnect moved)
    else some (true, record moved { state = connect })

-- rtmp_connect
unfoldable pub rtmp_connect : Peer → Context → Option (Bool × Context)
unfolding disconnect write_c0c1 receive_s0s1s2 finish_handshake
rtmp_connect peer ctx =
    let begun = record ctx { is_open = true; state = handshake_init } in
    if not peer.makes_socket
    then some (false, record ctx { is_open = false })
    else if not peer.parses_host
    then some (false, record ctx { is_open = false })
    else if not peer.connects
    then some (false, record ctx { is_open = false })
    else elim (write_c0c1 peer.clock peer.random ctx.handshake_buffer) [
      | none ↦ none
      | some buffer ↦
          let filled = record begun { handshake_buffer = buffer } in
          if not peer.c0c1
          then some (false, disconnect filled)
          else finish_handshake peer filled
              (receive_s0s1s2 0 (handshake_size * 2 + 1) buffer peer.pieces)
    ]

unfoldable pub set_chunk_size : (size : ℕ) → Context → Context
set_chunk_size size ctx = record ctx { chunk_size = size }

unfoldable pub set_window_ack_size : (size : ℕ) → Context → Context
set_window_ack_size size ctx = record ctx { window_ack_size = size }

unfoldable pub set_stream_id : (id : ℕ) → Context → Context
set_stream_id id ctx = record ctx { stream_id = id }
