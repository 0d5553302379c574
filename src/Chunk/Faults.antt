-- ===== src/Chunk/Faults.antt =====
-- Header types chosen by rtmp_chunk_write, and the inputs on which rtmp_chunk_read leaves its
-- buffers or refuses a chunk in the format, in rtmp_chunk.c.
use rtmpcamera.Prelude.{
  ℕ, ◌+◌, ◌*◌, ◌/◌, ◌%◌, ◌≤◌, ◌<◌, ◌≡◌, false, none, some, List, [], ◌∷◌, length, arith,
}
use rtmpcamera.Chunk.{
  Bytes, Header, State, get_chunk_type, read_basic_header, get_or_create, set_chunk,
}
use rtmpcamera.Chunk.Write.{message_header}
use rtmpcamera.Chunk.Read.{
  returned, out_of_bounds, chunk_read, read_message, read_payload, read_header, header_size,
  allocate, stored,
}
use rtmpcamera.Chunk.Fields.{IsWire, merged, message_inverse, length-message_header}
use rtmpcamera.Chunk.Receiving.{within, lt→==-false, take-piece_size}

-- The header type that rtmp_chunk_write chooses loses nothing: filling in the fields that it leaves
-- out from the previous header of the context gives the header back.
pub get_chunk_type-merged :
    (current previous : Header)
    → merged current previous (get_chunk_type current previous) ≡ current
unfolding get_chunk_type
get_chunk_type-merged current previous = ground arith

-- A basic header byte of the 2 or 3 byte form, which announces a stream id of 64 or more, makes
-- rtmp_chunk_read read behind the one byte that it received.
pub chunk_read_wide :
    (type b : ℕ) (old : Header) (incoming : List Bytes) (s : State)
    → b % 64 < 2
    → chunk_read type old ((b ∷ []) ∷ incoming) s ≡ out_of_bounds
unfolding chunk_read read_basic_header
chunk_read_wide type b old incoming s h = ground arith

-- While the uninitialised `type` is 0, rtmp_chunk_read refuses each chunk with a header of type 1 or 2
-- on stream ids 2 to 63: it returns false, whatever the header's bytes are.
pub chunk_read_compressed :
    (fmt csid : ℕ) (old : Header) (bytes : Bytes) (incoming : List Bytes) (s : State)
    → 1 ≤ fmt
    → fmt ≤ 2
    → 2 ≤ csid
    → csid < 64
    → length bytes ≡ header_size fmt
    → chunk_read 0 old (((fmt * 64 + csid) ∷ []) ∷ bytes ∷ incoming) s
      ≡ returned false none incoming (set_chunk csid (get_or_create (s.chunks csid)) s)
unfolding chunk_read read_basic_header header_size read_message read_header
chunk_read_compressed fmt csid old bytes incoming s h k l m e =
    let id : (fmt * 64 + csid) % 64 ≡ csid = omega arith in
    let slot : csid % 64 ≡ csid = omega arith in
    let type : (fmt * 64 + csid) / 64 % 4 ≡ fmt = omega arith in
    rw (id, type, lt→==-false csid 0 (omega arith), lt→==-false csid 1 (omega arith), slot)
      (ground arith)

-- A peer starts a message again before its first version ended, with a full header that gives a larger
-- length, on stream ids 2 to 63, while the uninitialised `type` is 0. A piece no longer than the
-- chunk size and than what is missing of the new length is what rtmp_chunk_read asks recv for:
-- as soon as the stored bytes and the piece are more than the first version's length, it is
-- received behind the end of the buffer.
pub chunk_read_overflow :
    (h old prev : Header) (d size csid : ℕ) (seen piece : Bytes) (incoming : List Bytes) (s : State)
    → IsWire h
    → 2 ≤ csid
    → csid < 64
    → s.chunks csid ≡ some (within prev size d seen)
    → length piece ≤ s.chunk_size
    → length seen + length piece ≤ h.message_length
    → size < length seen + length piece
    → chunk_read 0 old ((csid ∷ []) ∷ message_header h 0 ∷ piece ∷ incoming) s ≡ out_of_bounds
unfolding chunk_read read_basic_header header_size read_message read_payload allocate stored
    get_or_create
chunk_read_overflow h old prev d size csid seen piece incoming s w k l e c m o =
    let received = take-piece_size s.chunk_size h prev d size seen piece w.1 m c in
    let slot : csid % 64 ≡ csid = omega arith in
    let fmt : csid / 64 % 4 ≡ 0 = omega arith in
    rw
      (
        slot,
        fmt,
        lt→==-false csid 0 (omega arith),
        lt→==-false csid 1 (omega arith),
        slot,
        e,
        message_inverse h old 0 (omega arith) w,
        length-message_header h 0 (omega arith),
        received,
      )
      (ground (arith, o))
