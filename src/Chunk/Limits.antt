-- ===== src/Chunk/Limits.antt =====
-- Where rtmp_chunk_write_header of rtmp_chunk.c leaves the chunk format or the buffer.
use rtmpcamera.Prelude.{
  ℕ, ◌+◌, ◌/◌, ◌^◌, ◌≤◌, ◌<◌, ◌≡◌, ◌-◌, ◌*◌, u8, zero, suc, refl, ◌∙◌, Bool, true, Option, none,
  some, [], ◌∷◌, ◌++◌, length, drop, length-append, length-drop, arith,
}
use rtmpcamera.Chunk.{Bytes, Header, write_int24, write_basic_header, read_basic_header}
use rtmpcamera.Chunk.Write.{message_header, write_header}
use rtmpcamera.Chunk.Read.{header_size}
use rtmpcamera.Chunk.Fields.{store-room, store-full, length-message_header}

length-stored :
    (bs buf : Bytes) → length bs ≤ length buf → length (bs ++ drop (length bs) buf) ≡ length buf
length-stored bs buf h =
    omega (arith, length-append bs (drop (length bs) buf), length-drop (length bs) buf)

-- A buffer of 11 bytes passes the size test of rtmp_chunk_write_header, and a full header of type 0,
-- of 12 bytes, is stored past its end.
pub write_header_short :
    (buf : Bytes) (header : Header) → length buf ≡ 11 → write_header buf header 0 ≡ none
unfolding write_header write_basic_header message_header write_int24
write_header_short buf header h =
    let basic = write_basic_header 0 header.message_stream_id in
    let small : length basic ≤ 3 = ground arith in
    let first = store-room 0 basic buf (omega (arith, small)) in
    let all : length (basic ++ drop (length basic) buf) ≡ 11 =
      length-stored basic buf (omega (arith, small)) ∙ h in
    let message = message_header header 0 in
    let over =
      store-full 1 message (basic ++ drop (length basic) buf) (omega arith) (omega (arith, all)) in
    ground (arith, first, over)

-- The csid that the other side reads.
abbrev pub ReadsAs : (fmt csid : ℕ) → Option (Bool × Bytes) → Type 0
ReadsAs fmt csid none = ⊥
ReadsAs fmt csid (some (result, buf)) = (result ≡ true) × (read_basic_header buf ≡ some (fmt, csid))

write_header-extended :
    (buf : Bytes) (header : Header) (type : ℕ)
    → type < 3
    → 12 ≤ length buf
    → 64 ≤ header.message_stream_id
    → header.message_stream_id < 320
    → write_header buf header type
      ≡ some (
        true,
        (type * 64) ∷ message_header header type
            ++ drop
                (length (message_header header type))
                (u8 (header.message_stream_id - 64) ∷ drop 2 buf),
      )
unfolding write_header write_basic_header header_size
write_header-extended buf header type h k l m =
    let id = header.message_stream_id in
    let t = type * 64 in
    let x = u8 (id - 64) in
    let size = length-message_header header type (omega arith) in
    let room : 1 + length (message_header header type) ≤ length (t ∷ x ∷ drop 2 buf) =
      rw size (ground (arith, length-drop 2 buf)) in
    ground (
      arith,
      store-room 0 (t ∷ x ∷ []) buf (omega arith),
      store-room 1 (message_header header type) (t ∷ x ∷ drop 2 buf) room,
    )

-- For a stream id from 64 to 319 the second byte of the basic header is overwritten by the message
-- header, so that the stored header reads as stream 64 plus the high byte of the timestamp, whatever
-- the id was.
pub write_header_wide :
    (buf : Bytes) (header : Header) (type : ℕ)
    → type < 3
    → 12 ≤ length buf
    → 64 ≤ header.message_stream_id
    → header.message_stream_id < 320
    → header.timestamp < 2 ^ 24
    → ReadsAs type (header.timestamp / 2 ^ 16 + 64) (write_header buf header type)
unfolding read_basic_header message_header write_int24
write_header_wide buf header zero h k l m n =
    rw (write_header-extended buf header 0 (omega arith) k l m) (refl, ground arith)
write_header_wide buf header (suc zero) h k l m n =
    rw (write_header-extended buf header 1 (omega arith) k l m) (refl, ground arith)
write_header_wide buf header (suc (suc zero)) h k l m n =
    rw (write_header-extended buf header 2 (omega arith) k l m) (refl, ground arith)
write_header_wide buf header (suc (suc (suc i))) h k l m n = absurd (omega arith)
