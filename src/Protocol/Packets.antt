-- ===== src/Protocol/Packets.antt =====
-- rtmp_protocol.c: rtmp_send_packet, rtmp_read_packet and rtmp_handle_packet.
use rtmpcamera.Prelude.{
  ℕ, zero, suc, ◌+◌, ◌-◌, ◌%◌, ◌/◌, Bool, true, false, not, ◌&&◌, ◌||◌, Option, none, some, List,
  [], ◌∷◌, ◌++◌, if◌then◌else◌, ◌==◌, leb, ltb, u32, sub32, of_be32, length, take, drop, codes,
  same_bytes,
}
use rtmpcamera.Utils.{Packet, decode_string, decode_number}
use rtmpcamera.Chunk.Write.{Outcome, returned, send_payload, continuation_header}
use rtmpcamera.Protocol.{Bytes, Context, State, notify, set_chunk_size, set_window_ack_size}

-- The bytes of the payload that are sent: `size` says how many there are, so that `data` has no fewer.
unfoldable pub payload : Packet → Bytes
payload p = bytes p.contents
  where
    bytes : Option Bytes → Bytes
    bytes none = []
    bytes (some contents) = take p.size contents

module _ (accepts : (sent : List Bytes) → Bytes → Bool) where
  -- rtmp_send_packet. RTMP_CHUNK_TYPE_0 is 0, so that no message header is written. The loop over the
  -- payload is the one of rtmp_chunk_write.
  unfoldable pub send_packet : (fuel : ℕ) → Packet → Context → Outcome
  unfolding send_payload payload
  send_packet fuel p ctx =
      let header : Bytes = p.type % 64 ∷ [] in
      let rest =
        send_payload accepts fuel ctx.chunk_size (continuation_header p.type) (payload p)
          (header ∷ []) in
      if not ctx.is_open
      then returned false []
      else if not (accepts [] header)
      then returned false (header ∷ [])
      else if length (payload p) == 0
      then returned true (header ∷ [])
      else rest

  -- rtmp_send_connect: `encoded` is what amf_encode_command gives.
  unfoldable pub send_connect : (fuel : ℕ) → (encoded : Option Bytes) → Context → Outcome × Context
  unfolding send_packet
  send_connect fuel encoded ctx =
      let counted = record ctx { num_invokes = u32 (ctx.num_invokes + 1) } in
      elim encoded [
        | none ↦ (returned false [], counted)
        | some bytes ↦
            let packet : Packet = record {
              contents = some bytes;
              size = length bytes;
              timestamp = 0;
              type = 20;
              stream_id = 0;
            } in
            (send_packet fuel packet counted, counted)
      ]

-- The switch over the chunk type.
abbrev pub header_size : (basic : ℕ) → ℕ
header_size basic =
    let type = basic / 64 % 4 in
    if type == 0 then 12 else if type == 1 then 8 else if type == 2 then 4 else 1

-- The fields of a type 0 header, in the 11 bytes behind the basic header.
unfoldable pub parse_header : Bytes → Packet → Packet
parse_header (t2 ∷ t1 ∷ t0 ∷ s2 ∷ s1 ∷ s0 ∷ type ∷ i0 ∷ i1 ∷ i2 ∷ i3 ∷ []) p = record p {
  timestamp = of_be32 0 t2 t1 t0;
  size = of_be32 0 s2 s1 s0;
  type = type;
  stream_id = of_be32 i3 i2 i1 i0;
}
parse_header _ p = p

-- The loop over the payload: `seen` is received, `remaining` bytes are missing. The bytes, unless a
-- receive fails, and what is still to receive.
unfoldable pub read_payload :
    (chunk_size remaining : ℕ) → (seen : Bytes) → List Bytes → Option Bytes × List Bytes
read_payload chunk_size zero seen incoming = (some seen, incoming)
read_payload chunk_size (suc n) seen [] = (none, [])
read_payload chunk_size (suc n) seen (piece ∷ []) =
    if length piece == suc n && leb (suc n) chunk_size
    then (some (seen ++ piece), [])
    else (none, [])
read_payload chunk_size (suc n) seen (piece ∷ header ∷ incoming) =
    let size = if ltb chunk_size (suc n) then chunk_size else suc n in
    let rest = read_payload chunk_size (suc n - size) (seen ++ piece) incoming in
    if not (length piece == size)
    then (none, header ∷ incoming)
    else if suc n - size == 0
    then (some (seen ++ piece), header ∷ incoming)
    else if not (length header == 1)
    then (none, incoming)
    else rest

-- The packet, the context and what is still to receive.
abbrev pub Read : Type 0
Read = Bool × Packet × Context × List Bytes

-- The count of bytes, and the acknowledgement.
unfoldable pub count_bytes : (size : ℕ) → Context → Context
count_bytes size ctx =
    let total = u32 (ctx.bytes_received + size) in
    let counted = record ctx { bytes_received = total } in
    if leb ctx.window_ack_size (sub32 total ctx.last_ack_size)
    then record counted { acks = ctx.acks ++ total ∷ []; last_ack_size = total }
    else counted

-- rtmp_read_packet behind its headers.
unfoldable pub read_contents : (headers : ℕ) → Packet → Context → List Bytes → Read
unfolding read_payload count_bytes
read_contents headers p ctx incoming =
    if p.size == 0
    then (true, p, count_bytes (p.size + headers) ctx, incoming)
    else finish (read_payload ctx.chunk_size p.size [] incoming)
  where
    finish : Option Bytes × List Bytes → Read
    finish (none, rest) = (false, record p { contents = none }, ctx, rest)
    finish (some bytes, rest) =
        (true, record p { contents = some bytes }, count_bytes (p.size + headers) ctx, rest)

-- rtmp_read_packet, into a packet that the caller gives. A packet with a header of type 1 to 3
-- keeps its size, and gets the chunk stream as its type.
unfoldable pub read_packet : Packet → Context → (incoming : List Bytes) → Read
unfolding read_contents parse_header
read_packet p ctx incoming =
    if not ctx.is_open then (false, p, ctx, incoming) else read_basic incoming
  where
    read_header : (basic : ℕ) → Packet → List Bytes → Read
    read_header basic q [] =
        if header_size basic == 1 then read_contents 1 q ctx [] else (false, q, ctx, [])
    read_header basic q (header ∷ rest) =
        if header_size basic == 1
        then read_contents 1 q ctx (header ∷ rest)
        else if not (length header == header_size basic - 1)
        then (false, q, ctx, rest)
        else read_contents (header_size basic) (parse_header header q) ctx rest

    read_basic : List Bytes → Read
    read_basic [] = (false, p, ctx, [])
    read_basic ((basic ∷ []) ∷ rest) = read_header basic (record p { type = basic % 64 }) rest
    read_basic (_ ∷ rest) = (false, p, ctx, rest)

-- `(data[0] << 24) | ...`, of a packet of at least 4 bytes; shorter ones are ignored.
unfoldable pub handle_control_message : Packet → Context → Context
unfolding set_chunk_size set_window_ack_size
handle_control_message p ctx = handle_bytes p.contents
  where
    handle_bytes : Option Bytes → Context
    handle_bytes (some (a ∷ b ∷ c ∷ d ∷ rest)) =
        if ltb p.size 4
        then ctx
        else if p.type == 1
        then set_chunk_size (of_be32 a b c d) ctx
        else if p.type == 5
        then set_window_ack_size (of_be32 a b c d) ctx
        else ctx
    handle_bytes _ = ctx

abbrev is_connecting : State → Bool
is_connecting State.connect = true
is_connecting _ = false

-- The text before a NUL.
abbrev c_string : Bytes → Bytes
c_string [] = []
c_string (b ∷ bs) = let rest = b ∷ c_string bs in if b == 0 then [] else rest

-- handle_command_message; `none`: amf_decode_string or amf_decode_number reads out of bounds.
unfoldable pub handle_command_message : Packet → Context → Option Context
unfolding decode_string decode_number
handle_command_message p ctx = handle_bytes p.contents
  where
    handle_name : Bytes → Context
    handle_name command =
        if same_bytes (c_string command) (codes "_result") && is_connecting ctx.state
        then record ctx { state = State.connected; states = notify State.connected ctx }
        else ctx

    handle_bytes : Option Bytes → Option Context
    handle_bytes none = some ctx
    handle_bytes (some contents) = elim (decode_string contents) [
      | none ↦ none
      | some (offset, none) ↦ some ctx
      | some (offset, some command) ↦ elim (decode_number (drop offset contents)) [
        | none ↦ none
        | some (size, number) ↦ some (handle_name command)
      ]
    ]

-- rtmp_handle_packet
unfoldable pub handle_packet : Packet → Context → Option Context
unfolding handle_control_message handle_command_message
handle_packet p ctx =
    let type = p.type in
    if leb 1 type && leb type 6
    then some (handle_control_message p ctx)
    else if type == 20 || type == 17
    then handle_command_message p ctx
    else if (type == 8 || type == 9) || (type == 18 || type == 15)
    then some
        (if ctx.has_packet_callback then record ctx { packets = ctx.packets ++ p ∷ [] } else ctx)
    else some ctx
