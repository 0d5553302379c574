-- ===== src/Chunk/Repeats.antt =====
-- rtmp_chunk.c: what rtmp_chunk_read makes of what rtmp_chunk_write sends, where a message has the
-- header of the one before it.
use rtmpcamera.Prelude.{
  ℕ, suc, ◌+◌, ◌*◌, ◌^◌, ◌≤◌, ◌<◌, ◌≡◌, Bool, true, false, List, ◌++◌, length, arith,
}
use rtmpcamera.Chunk.{Bytes, Header, State, get_or_create, get_chunk_type}
use rtmpcamera.Chunk.Write.{
  Packet, Outcome, returned, out_of_bounds, out_of_fuel, chunk_write, continuation_header,
}
use rtmpcamera.Chunk.Fields.{IsWire}
use rtmpcamera.Chunk.Receiving.{idle, Delivers}
use rtmpcamera.Chunk.Reassembly.{reads, reads-repeated}
use rtmpcamera.Chunk.Message.{header_of, slot_of, Written, chunk_write-Written}

get_chunk_type_same :
    (h previous : Header) → previous ≡ h → 0 < h.message_length → get_chunk_type h previous ≡ 3
unfolding get_chunk_type
get_chunk_type_same h previous e p = rw e (ground arith)

-- A call that returned true, all of whose sends a reader in state `reader` takes as the packet.
abbrev pub ReadBy :
    Header → Packet → (rest : List Bytes) → (reader : State) → State × Outcome → Type 0
ReadBy old packet rest reader (after, returned true sent) =
    Delivers packet rest (reads (length sent) old (sent ++ rest) reader)
ReadBy old packet rest reader (after, _) = ⊥

Written-ReadBy :
    (old : Header) (packet : Packet) (rest : List Bytes) (d room read : ℕ) (reader s : State)
    (called : State × Outcome)
    → IsWire (header_of packet)
    → 2 ≤ packet.type
    → packet.type < 64
    → 0 < length packet.contents
    → length packet.contents < 2 ^ 24
    → reader.chunk_size ≡ s.chunk_size
    → get_or_create (reader.chunks packet.type) ≡ idle (header_of packet) d room read
    → Written (192 + packet.type) packet s called
    → ReadBy old packet rest reader called
Written-ReadBy old packet rest d room read reader s (after, returned true sent) w l u p q z e
      ((entries, split, all), kept) =
    let tag : continuation_header packet.type ≡ 192 + packet.type = omega arith in
    rw all (
      reads-repeated (header_of packet) old packet.type s.chunk_size w l u d room read
        (suc (length entries)) packet.contents entries rest reader (rw tag at split) z e p
        (omega arith) (omega arith))
Written-ReadBy old packet rest d room read reader s (after, returned false sent) w l u p q z e h =
    absurd h.0
Written-ReadBy old packet rest d room read reader s (after, out_of_bounds) w l u p q z e h =
    absurd h.0
Written-ReadBy old packet rest d room read reader s (after, out_of_fuel) w l u p q z e h =
    absurd h.0

-- A packet with the header of the packet before it, whose stream id is its message type, from 2 to
-- 63, with at least one byte and fields that fit the format, sent over a socket that takes every
-- send: rtmp_chunk_write returns true, and a reader with the same chunk size, whose context of the
-- stream holds that header and no message begun, reads exactly this packet from what was sent, in
-- calls of rtmp_chunk_read whose uninitialised `type` is 0, and takes nothing that comes behind it.
pub chunk_write-ReadBy :
    (accepts : List Bytes → Bytes → Bool)
    → ((sent : List Bytes) (bytes : Bytes) → accepts sent bytes ≡ true)
    → (old : Header) (f : ℕ) (memory : Bytes) (packet : Packet) (rest : List Bytes)
      (d room read : ℕ) (writer reader : State)
    → length memory ≡ 16
    → length packet.contents < f
    → 0 < writer.chunk_size
    → reader.chunk_size ≡ writer.chunk_size
    → 2 ≤ packet.type
    → packet.type < 64
    → packet.stream_id ≡ packet.type
    → packet.timestamp < 2 ^ 24
    → 0 < length packet.contents
    → length packet.contents < 2 ^ 24
    → (get_or_create (writer.chunks packet.type)).prev_header ≡ header_of packet
    → get_or_create (reader.chunks packet.type) ≡ idle (header_of packet) d room read
    → ReadBy old packet rest reader (chunk_write accepts f memory packet writer)
chunk_write-ReadBy accepts all old f memory packet rest d room read writer reader m h p z l u i t b
      k same e =
    let slot : slot_of packet ≡ packet.type = omega arith in
    let previous = (get_or_create (writer.chunks (slot_of packet))).prev_header in
    let type : get_chunk_type (header_of packet) previous ≡ 3 =
      rw slot (get_chunk_type_same (header_of packet) _ same (omega arith)) in
    let first : get_chunk_type (header_of packet) previous * 64 + packet.stream_id
        ≡ 192 + packet.type =
      omega (arith, type) in
    Written-ReadBy old packet rest d room read reader writer
      (chunk_write accepts f memory packet writer)
      (omega arith, omega arith, omega arith, omega arith) l u b k z e
      (rw first at
        (chunk_write-Written accepts all f memory packet writer m p (omega arith) (omega arith) h))
