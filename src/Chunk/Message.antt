-- ===== src/Chunk/Message.antt =====
-- What one call of rtmp_chunk_write of rtmp_chunk.c puts on the wire.
use rtmpcamera.Prelude.{
  ℕ, ◌+◌, ◌*◌, ◌%◌, ◌<◌, ◌≡◌, refl, Bool, true, false, some, List, [], ◌∷◌, length, take, take_all,
  u32, arith, ==_refl,
}
use rtmpcamera.Chunk.{
  Bytes, Header, State, get_chunk_type, update_chunk_context, get_or_create, set_chunk,
  max_chunk_streams,
}
use rtmpcamera.Chunk.Write.{
  Outcome, returned, out_of_bounds, out_of_fuel, chunk_write, Packet, continuation_header,
  keep_header,
}
use rtmpcamera.Chunk.Fields.{write_header-room}
use rtmpcamera.Chunk.Sending.{Sent, send_payload-Sent}

-- The header that rtmp_chunk_write makes of a packet.
abbrev pub header_of : Packet → Header
header_of packet = record {
  timestamp = packet.timestamp;
  message_length = u32 (length packet.contents);
  message_type = packet.type;
  message_stream_id = packet.stream_id;
}

abbrev pub slot_of : Packet → ℕ
slot_of packet = packet.type % max_chunk_streams

-- The call returned true with the entries behind a one-byte send of `first`, and the slot's
-- context holds the header.
abbrev pub Written : (first : ℕ) → Packet → State → State × Outcome → Type 0
Written first packet s (s1, outcome) =
    Sent s.chunk_size (continuation_header packet.type) packet.contents ((first ∷ []) ∷ []) outcome
    × (s1.chunks (slot_of packet)
        ≡ some
            (update_chunk_context (get_or_create (s.chunks (slot_of packet))) (header_of packet)))

get_chunk_type_bound : (current previous : Header) → get_chunk_type current previous < 4
unfolding get_chunk_type
get_chunk_type_bound current previous = ground arith

Written-keep :
    (first : ℕ) (packet : Packet) (s : State) (o : Outcome)
    → Sent s.chunk_size (continuation_header packet.type) packet.contents ((first ∷ []) ∷ []) o
    → let slot = slot_of packet in
      let ctx = get_or_create (s.chunks slot) in
      Written first packet s (keep_header (header_of packet) slot ctx (set_chunk slot ctx s) o)
unfolding keep_header
Written-keep first packet s (returned true sent) h = (h, rw (==_refl (slot_of packet)) refl)
Written-keep first packet s (returned false sent) h = absurd h
Written-keep first packet s out_of_bounds h = absurd h
Written-keep first packet s out_of_fuel h = absurd h

module _ (accepts : List Bytes → Bytes → Bool)
    (accepts_all : (sent : List Bytes) (bytes : Bytes) → accepts sent bytes ≡ true) where
  -- When the socket takes every send, the chunk size is positive, the stream id is below 64 and the
  -- payload is shorter than 2^32 bytes, rtmp_chunk_write returns true and sends the split payload
  -- behind a single byte, the basic header: none of the message header's bytes is sent. The context
  -- of the message type's slot then holds the packet's header.
  pub chunk_write-Written :
      (f : ℕ) (memory : Bytes) (packet : Packet) (s : State)
      → length memory ≡ 16
      → 0 < s.chunk_size
      → packet.stream_id < 64
      → length packet.contents < 4294967296
      → length packet.contents < f
      → let type =
          get_chunk_type
            (header_of packet)
            (get_or_create (s.chunks (slot_of packet))).prev_header in
        Written (type * 64 + packet.stream_id) packet s (chunk_write accepts f memory packet s)
  unfolding chunk_write
  chunk_write-Written f memory packet s m p k l h =
      let header = header_of packet in
      let ctx = get_or_create (s.chunks (slot_of packet)) in
      let type = get_chunk_type header ctx.prev_header in
      let bound = get_chunk_type_bound header ctx.prev_header in
      let whole : take (u32 (length packet.contents)) packet.contents ≡ packet.contents =
        take_all _ packet.contents (omega arith) in
      rw (write_header-room memory header type bound k (omega arith)) (
        rw (accepts_all [] ((type * 64 + packet.stream_id) ∷ []), whole)
          (Written-keep _ packet s _
            (send_payload-Sent accepts accepts_all f _ _ packet.contents _ p h)))
