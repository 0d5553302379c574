-- ===== src/Chunk/Read.antt =====
-- rtmp_chunk.c: rtmp_chunk_read_header and rtmp_chunk_read.
--
-- The socket gives one entry of `incoming` for each recv: the bytes that it delivers, no more than
-- were asked for, and nothing once `incoming` is empty. What the
-- local variables `type` and `header` hold before they are set, and the 3 bytes behind `basicHeader`,
-- is not known: `type` and `header` are parameters, and a read behind `basicHeader` is
-- `out_of_bounds`.
use rtmpcamera.Prelude.{
  ℕ, ◌+◌, ◌*◌, ◌%◌, ◌^◌, Bool, true, false, not, Option, none, some, List, [], ◌∷◌, ◌++◌,
  if◌then◌else◌, ◌==◌, ltb, leb, length, take, drop, get_or, sub32,
}
use rtmpcamera.Chunk.{
  Bytes, Header, Context, State, update_chunk_context, read_int24, read_basic_header, get_or_create,
  set_chunk, max_chunk_streams,
}
use rtmpcamera.Chunk.Write.{Packet}

-- `header` behind the call and the result. `buf` has `size` bytes.
unfoldable pub read_header : (buf : Bytes) → Header → (type : ℕ) → Bool × Header
read_header buf header type =
    let full : Header = record {
      timestamp = read_int24 buf;
      message_length = read_int24 (drop 3 buf);
      message_type = get_or buf 6 0;
      message_stream_id =
          get_or buf 7 0
          + get_or buf 8 0 * 2 ^ 8
          + get_or buf 9 0 * 2 ^ 16
          + get_or buf 10 0 * 2 ^ 24;
    } in
    let partial = record full { message_stream_id = header.message_stream_id } in
    let timed = record header { timestamp = read_int24 buf } in
    if ltb (length buf) 3
    then (false, header)
    else if type == 0
    then if ltb (length buf) 11 then (false, header) else (true, full)
    else if type == 1
    then if ltb (length buf) 7 then (false, header) else (true, partial)
    else if type == 2
    then (true, timed)
    else (true, header)

-- `headerSize` for a `fmt` below 4
unfoldable pub header_size : (fmt : ℕ) → ℕ
header_size fmt = if fmt == 0 then 11 else if fmt == 1 then 7 else if fmt == 2 then 3 else 0

-- One call: its result, the packet if a message is complete, and the entries not yet received.
pub data Outcome : Type 0 where
  returned : Bool → Option Packet → (incoming : List Bytes) → State → Outcome
  out_of_bounds : Outcome

-- `ctx->buffer` allocated if it is NULL
unfoldable pub allocate : Header → Context → Context
allocate header ctx = allocate_buffer ctx.buffer
  where
    allocate_buffer : Option Bytes → Context
    allocate_buffer (some stored) = ctx
    allocate_buffer none = record ctx {
      buffer = some [];
      buffer_size = header.message_length;
      bytes_read = 0;
    }

-- The bytes of `ctx->buffer`.
unfoldable pub stored : Context → Bytes
stored ctx = stored_buffer ctx.buffer
  where
    stored_buffer : Option Bytes → Bytes
    stored_buffer none = []
    stored_buffer (some bytes) = bytes

-- `remaining`, which wraps, and `size`
unfoldable pub piece_size : (chunk_size : ℕ) → Header → Context → ℕ
piece_size chunk_size header ctx =
    let remaining = sub32 header.message_length ctx.bytes_read in
    if ltb chunk_size remaining then chunk_size else remaining

-- The end of rtmp_chunk_read, with `piece` received.
unfoldable pub finish : Header → Context → (piece : Bytes) → Context × Option Packet
finish header ctx piece =
    let bytes = stored ctx ++ piece in
    let grown = record ctx { buffer = some bytes; bytes_read = ctx.bytes_read + length piece } in
    let packet : Packet = record {
      type = header.message_type;
      contents = take header.message_length bytes;
      timestamp = header.timestamp;
      stream_id = header.message_stream_id;
    } in
    let emptied = record grown { buffer = none; buffer_size = 0; bytes_read = 0 } in
    if leb header.message_length grown.bytes_read
    then (update_chunk_context emptied header, some packet)
    else (update_chunk_context grown header, none)

-- From the allocation on, for the context in `slot`. recv stores at most the `size` bytes that it is
-- asked for.
unfoldable pub read_payload : Header → (slot : ℕ) → Context → List Bytes → State → Outcome
read_payload header slot ctx [] s = returned false none [] (set_chunk slot (allocate header ctx) s)
read_payload header slot ctx (piece ∷ incoming) s =
    let ready = allocate header ctx in
    let size = piece_size s.chunk_size header ready in
    let received = take size piece in
    let (ctx1, packet) = finish header ready received in
    if ltb ready.buffer_size (ready.bytes_read + length received)
    then out_of_bounds
    else if not (length received == size)
    then returned false none incoming (set_chunk slot ready s)
    else returned true packet incoming (set_chunk slot ctx1 s)

-- From the message header on, of `size` bytes.
unfoldable pub read_message :
    (type : ℕ) → Header → (size slot : ℕ) → Context → List Bytes → State → Outcome
read_message type header size slot ctx [] s =
    if size == 0 then read_payload ctx.prev_header slot ctx [] s else returned false none [] s
read_message type header size slot ctx (bytes ∷ incoming) s =
    let (valid, parsed) = read_header bytes header type in
    if size == 0
    then read_payload ctx.prev_header slot ctx (bytes ∷ incoming) s
    else if not (length bytes == size)
    then returned false none incoming s
    else if not valid
    then returned false none incoming s
    else read_payload parsed slot ctx incoming s

-- rtmp_chunk_read, with what `type` and `header` hold before they are set
unfoldable pub chunk_read : (type : ℕ) → Header → List Bytes → State → Outcome
chunk_read type header [] s = returned false none [] s
chunk_read type header (bytes ∷ incoming) s =
    if not (length bytes == 1)
    then returned false none incoming s
    else read_context (read_basic_header bytes)
  where
    read_context : Option (ℕ × ℕ) → Outcome
    read_context none = out_of_bounds
    read_context (some (fmt, csid)) =
        let slot = csid % max_chunk_streams in
        let ctx = get_or_create (s.chunks slot) in
        read_message type header (header_size fmt) slot ctx incoming (set_chunk slot ctx s)
