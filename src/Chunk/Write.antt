-- ===== src/Chunk/Write.antt =====
-- rtmp_chunk.c: rtmp_chunk_write_header and rtmp_chunk_write.
--
-- The socket is a parameter: `accepts sent bytes` says whether a send of `bytes`, after the sends
-- `sent`, takes them all. The payload loop runs on fuel.
use rtmpcamera.Prelude.{
  ℕ, zero, suc, ◌+◌, ◌-◌, ◌%◌, ◌/◌, ◌^◌, Bool, true, false, not, Option, none, some, List, [], ◌∷◌,
  ◌++◌, if◌then◌else◌, ◌==◌, ltb, u8, u32, length, take, drop, ◌>>=◌,
}
use rtmpcamera.Chunk.{
  Bytes, Header, Context, State, get_chunk_type, update_chunk_context, write_int24,
  write_basic_header, get_or_create, set_chunk, max_chunk_streams,
}

-- `RTMPPacket`: `size` is the number of bytes of `contents`.
pub record Packet : Type 0 where
  pub type : ℕ
  pub contents : Bytes
  pub timestamp : ℕ
  pub stream_id : ℕ

-- Bytes stored from position `pos` of a buffer; `none`: some lie behind its end.
unfoldable pub store : (pos : ℕ) → Bytes → (buf : Bytes) → Option Bytes
store zero [] buf = some buf
store zero (b ∷ bs) [] = none
store zero (b ∷ bs) (x ∷ buf) = store zero bs buf >>= λ rest. some (b ∷ rest)
store (suc pos) bs [] = none
store (suc pos) bs (x ∷ buf) = store pos bs buf >>= λ rest. some (x ∷ rest)

-- What the switch of rtmp_chunk_write_header stores from position 1.
unfoldable pub message_header : Header → (type : ℕ) → Bytes
message_header header type =
    let id = header.message_stream_id in
    if type == 0
    then write_int24 header.timestamp
      ++ (write_int24 header.message_length
          ++ (header.message_type
              ∷ u8 id
              ∷ u8 (id / 2 ^ 8)
              ∷ u8 (id / 2 ^ 16)
              ∷ u8 (id / 2 ^ 24)
              ∷ []))
    else if type == 1
    then write_int24 header.timestamp
      ++ (write_int24 header.message_length ++ header.message_type ∷ [])
    else if type == 2
    then write_int24 header.timestamp
    else []

-- The result, a `bool`, and the buffer behind; `none`: a store behind the buffer's end.
unfoldable pub write_header : (buf : Bytes) → Header → (type : ℕ) → Option (Bool × Bytes)
write_header buf header type = if ltb (length buf) 11 then some (false, buf) else do
  basic ← store 0 (write_basic_header type header.message_stream_id) buf
  full ← store 1 (message_header header type) basic
  some (true, full)

pub data Outcome : Type 0 where
  -- the result and the sends so far
  returned : Bool → (sent : List Bytes) → Outcome
  out_of_bounds out_of_fuel : Outcome

-- `(packet->type & 0x3f) | (CHUNK_TYPE_3 << 6)`
abbrev pub continuation_header : (type : ℕ) → ℕ
continuation_header type = type % 64 + 192

-- The end of rtmp_chunk_write, behind the payload.
unfoldable pub keep_header : Header → (slot : ℕ) → Context → State → Outcome → State × Outcome
keep_header header slot ctx s (returned true sent) =
    (set_chunk slot (update_chunk_context ctx header) s, returned true sent)
keep_header header slot ctx s outcome = (s, outcome)

module _ (accepts : (sent : List Bytes) → Bytes → Bool) where
  -- The loop over the payload.
  unfoldable pub send_payload :
      (fuel chunk_size tag : ℕ) → (contents : Bytes) → List Bytes → Outcome
  send_payload zero chunk_size tag contents sent = out_of_fuel
  send_payload (suc fuel) chunk_size tag contents sent =
      let size = if ltb chunk_size (length contents) then chunk_size else length contents in
      let piece = take size contents in
      let rest = drop size contents in
      let after = sent ++ piece ∷ [] in
      let last = send_payload fuel chunk_size tag rest after in
      let next = send_payload fuel chunk_size tag rest (after ++ (tag ∷ []) ∷ []) in
      if length contents == 0
      then returned true sent
      else if not (accepts sent piece)
      then returned false after
      else if length contents - size == 0
      then last
      else if not (accepts after (tag ∷ []))
      then returned false (after ++ (tag ∷ []) ∷ [])
      else next

  -- Neither `packet->data` nor `userData` is NULL here. `memory` is what the 16 bytes of `header` hold
  -- before. The header's size is the `bool` of rtmp_chunk_write_header.
  unfoldable pub chunk_write : (fuel : ℕ) → (memory : Bytes) → Packet → State → State × Outcome
  chunk_write fuel memory packet s =
      let header : Header = record {
        timestamp = packet.timestamp;
        message_length = u32 (length packet.contents);
        message_type = packet.type;
        message_stream_id = packet.stream_id;
      } in
      let slot = packet.type % max_chunk_streams in
      let ctx = get_or_create (s.chunks slot) in
      let made = set_chunk slot ctx s in
      let type = get_chunk_type header ctx.prev_header in
      chunk_write_header type header slot ctx made (write_header memory header type)
    where
      chunk_write_header :
          ℕ → Header → ℕ → Context → State → Option (Bool × Bytes) → State × Outcome
      chunk_write_header type header slot ctx made none = (made, out_of_bounds)
      chunk_write_header type header slot ctx made (some (false, buf)) = (made, returned false [])
      chunk_write_header type header slot ctx made (some (true, buf)) =
          let first = take 1 buf in
          let payload = keep_header header slot ctx made (
            send_payload fuel made.chunk_size (continuation_header packet.type)
              (take (u32 (length packet.contents)) packet.contents) (first ∷ [])) in
          if not (accepts [] first) then (made, returned false (first ∷ [])) else payload
