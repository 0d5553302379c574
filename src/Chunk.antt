-- ===== src/Chunk.antt =====
-- rtmp_chunk.c and rtmp_chunk.h: chunk headers, the contexts of the chunk streams, and the bytes
-- of the basic header.
--
-- A header type is a number, as in the program, where a variable of that type may be
-- uninitialised. Shifts, masks and `|` of disjoint bits are written as divisions, remainders and
-- sums.
pub mod Write
pub mod Read
pub mod Wire
pub mod Fields
pub mod Limits
pub mod Message
pub mod Sending
pub mod Receiving
pub mod Faults
pub mod Reassembly
pub mod Repeats
mod Tests
use rtmpcamera.Prelude.{
  ℕ, ◌+◌, ◌-◌, ◌*◌, ◌/◌, ◌%◌, ◌^◌, Bool, true, false, not, ◌||◌, Option, none, some, List, [], ◌∷◌,
  if◌then◌else◌, ◌==◌, ltb, leb, u8, sub32, get_or, length,
}

abbrev pub Bytes : Type 0
Bytes = List ℕ

-- `RTMPChunkHeader`
pub record Header : Type 0 where
  pub timestamp : ℕ
  pub message_length : ℕ
  pub message_type : ℕ
  pub message_stream_id : ℕ

abbrev pub zero_header : Header
zero_header = record { timestamp = 0; message_length = 0; message_type = 0; message_stream_id = 0 }

-- `RTMPChunkContext`. `buffer` is `none` for NULL, and else the bytes stored in it so far.
pub record Context : Type 0 where
  pub prev_header : Header
  pub timestamp_delta : ℕ
  pub buffer : Option Bytes
  pub buffer_size : ℕ
  pub bytes_read : ℕ

unfoldable pub context_create : Context
context_create = record {
  prev_header = zero_header;
  timestamp_delta = 0;
  buffer = none;
  buffer_size = 0;
  bytes_read = 0;
}

unfoldable pub context_reset : Context → Context
context_reset ctx = record {
  prev_header = zero_header;
  timestamp_delta = 0;
  buffer = none;
  buffer_size = 0;
  bytes_read = 0;
}

-- rtmp_chunk_context_destroy: the buffer that is freed before the context.
unfoldable pub context_destroy : Context → List Bytes
context_destroy ctx = elim ctx.buffer [ none ↦ [] | some bytes ↦ bytes ∷ [] ]

abbrev pub max_chunk_streams : ℕ
max_chunk_streams = 64

abbrev pub max_chunk_size : ℕ
max_chunk_size = 65536

abbrev pub default_chunk_size : ℕ
default_chunk_size = 128

-- `ChunkState`: the context of each of the 64 slots, `none` for NULL.
pub record State : Type 0 where
  pub chunks : ℕ → Option Context
  pub chunk_size : ℕ

-- The `userData` of an `RTMPContext`, `none` for NULL.
unfoldable pub set_size : ℕ → Option State → Option State
set_size size none = none
set_size size (some s) =
    some (record s { chunk_size = if ltb max_chunk_size size then max_chunk_size else size })

unfoldable pub get_size : Option State → ℕ
get_size none = default_chunk_size
get_size (some s) = s.chunk_size

-- `state->chunks[i] = ctx`
abbrev pub set_chunk : ℕ → Context → State → State
set_chunk i ctx s = record s { chunks = λ j. if j == i then some ctx else s.chunks j }

-- The context in slot `i`, made when there is none.
unfoldable pub get_or_create : Option Context → Context
get_or_create none = context_create
get_or_create (some ctx) = ctx

-- The header types `CHUNK_TYPE_0` to `CHUNK_TYPE_3`.
unfoldable pub get_chunk_type : (current previous : Header) → ℕ
get_chunk_type current previous =
    if previous.message_length == 0
    then 0
    else if not (current.message_stream_id == previous.message_stream_id)
    then 0
    else if not (current.message_length == previous.message_length)
        || not (current.message_type == previous.message_type)
    then 1
    else if not (current.timestamp == previous.timestamp)
    then 2
    else 3

unfoldable pub update_chunk_context : Context → Header → Context
update_chunk_context ctx header = record ctx {
  timestamp_delta = sub32 header.timestamp ctx.prev_header.timestamp;
  prev_header = header;
}

unfoldable pub write_int24 : ℕ → Bytes
write_int24 val = u8 (val / 2 ^ 16) ∷ u8 (val / 2 ^ 8) ∷ u8 val ∷ []

unfoldable pub read_int24 : Bytes → ℕ
read_int24 buf = get_or buf 0 0 * 2 ^ 16 + get_or buf 1 0 * 2 ^ 8 + get_or buf 2 0

-- The bytes that write_basic_header stores, for a `fmt` below 4.
unfoldable pub write_basic_header : (fmt csid : ℕ) → Bytes
write_basic_header fmt csid =
    if leb 64 csid
    then if leb 320 csid
      then (fmt * 64 + 1) ∷ u8 (csid - 64) ∷ u8 ((csid - 64) / 2 ^ 8) ∷ []
      else (fmt * 64) ∷ u8 (csid - 64) ∷ []
    else (fmt * 64 + csid) ∷ []

-- `*fmt` and `*csid`; `none`: a byte behind the buffer is read.
unfoldable pub read_basic_header : Bytes → Option (ℕ × ℕ)
read_basic_header [] = none
read_basic_header (b ∷ bs) =
    let fmt = b / 64 % 4 in
    if b % 64 == 0
    then if ltb (length bs) 1 then none else some (fmt, get_or bs 0 0 + 64)
    else if b % 64 == 1
    then if ltb (length bs) 2 then none else some (fmt, get_or bs 1 0 * 2 ^ 8 + get_or bs 0 0 + 64)
    else some (fmt, b % 64)
