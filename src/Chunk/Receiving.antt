-- ===== src/Chunk/Receiving.antt =====
-- What rtmp_chunk_read of rtmp_chunk.c makes of a message in the chunk format.
use rtmpcamera.Prelude.{
  ℕ, ◌+◌, ◌%◌, ◌^◌, ◌≤◌, ◌<◌, ◌≡◌, refl, ap, true, false, none, some, List, [], ◌∷◌, ◌++◌, length,
  take, length-append, append-nil, take_append, take_all, sub32, sub32_exact, ◌==◌, ◌/◌, arith,
}
use rtmpcamera.Chunk.{
  Bytes, Header, Context, State, read_basic_header, update_chunk_context, get_or_create, set_chunk,
}
use rtmpcamera.Chunk.Write.{Packet, message_header}
use rtmpcamera.Chunk.Read.{
  Outcome, returned, chunk_read, read_message, read_payload, header_size, finish, allocate, stored,
  piece_size,
}
use rtmpcamera.Chunk.Fields.{IsWire, message_inverse, length-message_header}

-- The context in the middle of a message of `size` bytes, with its first bytes `seen`.
abbrev pub within : (prev : Header) → (size delta : ℕ) → (seen : Bytes) → Context
within prev size delta seen = record {
  prev_header = prev;
  timestamp_delta = delta;
  buffer = some seen;
  buffer_size = size;
  bytes_read = length seen;
}

-- A piece that is no longer than what recv is asked for is received whole.
pub take-piece_size :
    (chunk_size : ℕ) (h prev : Header) (d size : ℕ) (seen piece : Bytes)
    → h.message_length < 2 ^ 24
    → length seen + length piece ≤ h.message_length
    → length piece ≤ chunk_size
    → take (piece_size chunk_size h (within prev size d seen)) piece ≡ piece
unfolding piece_size
take-piece_size chunk_size h prev d size seen piece w k e =
    let sub = sub32_exact h.message_length (length seen) (omega arith) (omega arith) in
    let room : length piece ≤ piece_size chunk_size h (within prev size d seen) =
      ground (arith, sub) in
    take_all _ piece room

pub payload-more :
    (h prev : Header) (d slot : ℕ) (seen piece : Bytes) (incoming : List Bytes) (s : State)
    → h.message_length < 2 ^ 24
    → length seen + length piece < h.message_length
    → length piece ≡ s.chunk_size
    → read_payload h slot (within prev h.message_length d seen) (piece ∷ incoming) s
      ≡ returned true none incoming (
          set_chunk slot
            (within h h.message_length (sub32 h.timestamp prev.timestamp) (seen ++ piece))
            s)
unfolding read_payload finish allocate stored piece_size update_chunk_context
payload-more h prev d slot seen piece incoming s w k e =
    let sub = sub32_exact h.message_length (length seen) (omega arith) (omega arith) in
    let whole =
      take-piece_size s.chunk_size h prev d h.message_length seen piece w (omega arith)
        (omega arith) in
    rw whole (ground (arith, sub, length-append seen piece))

abbrev pub packet_of : Header → Bytes → Packet
packet_of h contents = record {
  type = h.message_type;
  contents = contents;
  timestamp = h.timestamp;
  stream_id = h.message_stream_id;
}

-- The call returned true with this packet, and `rest` is still to receive.
abbrev pub Delivers : Packet → (rest : List Bytes) → Outcome → Type 0
Delivers packet rest (returned true (some p) incoming s) = (p ≡ packet) × (incoming ≡ rest)
Delivers packet rest _ = ⊥

pub payload-last :
    (h prev : Header) (d slot : ℕ) (seen piece : Bytes) (incoming : List Bytes) (s : State)
    → h.message_length < 2 ^ 24
    → length seen + length piece ≡ h.message_length
    → length piece ≤ s.chunk_size
    → Delivers
        (packet_of h (seen ++ piece))
        incoming
        (read_payload h slot (within prev h.message_length d seen) (piece ∷ incoming) s)
unfolding read_payload finish allocate stored piece_size update_chunk_context
payload-last h prev d slot seen piece incoming s w k e =
    let sub = sub32_exact h.message_length (length seen) (omega arith) (omega arith) in
    let whole : take h.message_length (seen ++ piece) ≡ seen ++ piece =
      rw (append-nil (seen ++ piece), length-append seen piece, k) at
        (take_append (seen ++ piece) []) in
    let received =
      take-piece_size s.chunk_size h prev d h.message_length seen piece w (omega arith)
        (omega arith) in
    rw received (ground (arith, sub, length-append seen piece, whole))

pub lt→==-false : (a b : ℕ) → b < a → (a == b) ≡ false
lt→==-false a b h = ground arith

-- A header of type 3 takes up the context of its stream.
pub resumed :
    (type : ℕ) (old : Header) (ctx : Context) (csid : ℕ) (incoming : List Bytes) (s : State)
    → 2 ≤ csid
    → csid < 64
    → get_or_create (s.chunks csid) ≡ ctx
    → chunk_read type old (((192 + csid) ∷ []) ∷ incoming) s
      ≡ read_payload ctx.prev_header csid ctx incoming (set_chunk csid ctx s)
unfolding chunk_read read_message read_basic_header header_size read_payload
resumed type old ctx csid incoming s k l e =
    let slot : csid % 64 ≡ csid = omega arith in
    let id : (192 + csid) % 64 ≡ csid = omega arith in
    let fmt : (192 + csid) / 64 % 4 ≡ 3 = omega arith in
    rw (id, fmt, lt→==-false csid 0 (omega arith), lt→==-false csid 1 (omega arith), slot, e)
      (elim incoming [ [] ↦ refl | x ∷ xs ↦ refl ])

pub continued :
    (type : ℕ) (old h : Header) (d csid : ℕ) (seen : Bytes) (incoming : List Bytes) (s : State)
    → 2 ≤ csid
    → csid < 64
    → s.chunks csid ≡ some (within h h.message_length d seen)
    → chunk_read type old (((192 + csid) ∷ []) ∷ incoming) s
      ≡ read_payload h csid
          (within h h.message_length d seen)
          incoming
          (set_chunk csid (within h h.message_length d seen) s)
unfolding get_or_create
continued type old h d csid seen incoming s k l e =
    resumed type old (within h h.message_length d seen) csid incoming s k l (ap get_or_create e)

-- The context between two messages.
abbrev pub idle : (prev : Header) → (delta size read : ℕ) → Context
idle prev delta size read = record {
  prev_header = prev;
  timestamp_delta = delta;
  buffer = none;
  buffer_size = size;
  bytes_read = read;
}

pub payload-idle :
    (h prev : Header) (d size read slot : ℕ) (incoming : List Bytes) (s : State)
    → read_payload h slot (idle prev d size read) incoming s
      ≡ read_payload h slot (within prev h.message_length d []) incoming s
unfolding read_payload allocate
payload-idle h prev d size read slot [] s = refl
payload-idle h prev d size read slot (piece ∷ incoming) s = refl

pub begun :
    (h old prev : Header) (d size read csid : ℕ) (incoming : List Bytes) (s : State)
    → IsWire h
    → 2 ≤ csid
    → csid < 64
    → get_or_create (s.chunks csid) ≡ idle prev d size read
    → chunk_read 0 old ((csid ∷ []) ∷ message_header h 0 ∷ incoming) s
      ≡ read_payload h csid
          (idle prev d size read)
          incoming
          (set_chunk csid (idle prev d size read) s)
unfolding chunk_read read_message read_basic_header header_size
begun h old prev d size read csid incoming s w k l e =
    let slot : csid % 64 ≡ csid = omega arith in
    let fmt : csid / 64 % 4 ≡ 0 = omega arith in
    rw
      (
        slot,
        fmt,
        lt→==-false csid 0 (omega arith),
        lt→==-false csid 1 (omega arith),
        slot,
        e,
        message_inverse h old 0 (omega arith) w,
        length-message_header h 0 (omega arith),
      )
      refl
