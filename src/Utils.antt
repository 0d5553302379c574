-- ===== src/Utils.antt =====
-- rtmp_utils.c and rtmp_utils.h: buffers, packets, the AMF functions without a size, and the performance
-- entries.
--
-- `none` is a read or a write out of bounds. `char` is signed, as on the platforms of the program.
pub mod Strings
pub mod Perf
pub mod Logging
mod Tests
use rtmpcamera.Prelude.{
  ℕ, zero, suc, ◌+◌, ◌*◌, ◌/◌, ◌%◌, ◌^◌, ◌-◌, Bool, true, false, not, ◌&&◌, Option, none, some,
  List, [], ◌∷◌, ◌++◌, reverse, if◌then◌else◌, ◌==◌, ltb, u8, u16, length, take, drop, same_bytes,
  get_or, codes,
}

abbrev pub Bytes : Type 0
Bytes = List ℕ

abbrev pub zeros : ℕ → Bytes
zeros zero = []
zeros (suc n) = 0 ∷ zeros n

-- rtmp_buffer_create, when the allocation succeeds.
unfoldable pub buffer_create : (size : ℕ) → Bytes
buffer_create size = zeros size

-- rtmp_buffer_size: `sizeof` of the pointer, 8.
unfoldable pub buffer_size : Bytes → ℕ
buffer_size buffer = 8

-- rtmp_buffer_reset
unfoldable pub buffer_reset : Bytes → Option Bytes
unfolding buffer_size
buffer_reset buffer =
    let size = buffer_size buffer in
    if ltb (length buffer) size then none else some (zeros size ++ drop size buffer)

-- `RTMPPacket`: `contents` is what `data` points to, if it is not NULL.
pub record Packet : Type 0 where
  pub contents : Option Bytes
  pub size : ℕ
  pub timestamp : ℕ
  pub type : ℕ
  pub stream_id : ℕ

unfoldable pub packet_create : Packet
packet_create = record { contents = none; size = 0; timestamp = 0; type = 0; stream_id = 0 }

-- rtmp_packet_alloc: `memory` is what malloc gives, of `size` bytes.
unfoldable pub packet_alloc : (memory : Option Bytes) → (size : ℕ) → Packet → Bool × Packet
packet_alloc none size p = (false, record p { contents = none; size = 0 })
packet_alloc (some memory) size p = (true, record p { contents = some memory; size = size })

-- rtmp_packet_copy, on a packet that has `size` bytes; `none`: the result is NULL.
unfoldable pub packet_copy : (memory : Option Bytes) → Packet → Option Packet
unfolding packet_create packet_alloc
packet_copy memory p =
    let copy = record packet_create {
      type = p.type;
      timestamp = p.timestamp;
      stream_id = p.stream_id;
    } in
    copy_contents p.contents copy
  where
    copied : Bytes → Bool × Packet → Option Packet
    copied bytes (false, q) = none
    copied bytes (true, q) = some (record q { contents = some (take p.size bytes) })

    copy_contents : Option Bytes → Packet → Option Packet
    copy_contents none copy = some copy
    copy_contents (some bytes) copy =
        if p.size == 0 then some copy else copied bytes (packet_alloc memory p.size copy)

-- amf_encode_string: what it writes to `output`; it returns their number.
unfoldable pub encode_string : Bytes → Bytes
encode_string str = 2 ∷ u8 (length str / 256) ∷ u8 (length str) ∷ str

-- amf_encode_number, for the 8 bytes of a `double` in memory, the lowest first.
unfoldable pub encode_number : (double : Bytes) → Bytes
encode_number double = 0 ∷ reverse double

-- amf_encode_boolean
unfoldable pub encode_boolean : Bool → Bytes
encode_boolean b = 1 ∷ (if b then 1 else 0) ∷ []

-- `(input[1] << 8) | input[2]` as `uint16_t`: a second byte from 128 on is negative, and sets
-- all bits of the first.
abbrev pub signed_be16 : (high low : ℕ) → ℕ
signed_be16 high low = if ltb low 128 then u16 (high * 256 + low) else 65280 + low

-- amf_decode_string: the result, and `*str` where it is set.
unfoldable pub decode_string : (input : Bytes) → Option (ℕ × Option Bytes)
decode_string [] = none
decode_string (marker ∷ rest) = if not (marker == 2) then some (0, none) else read_string rest
  where
    read_string : Bytes → Option (ℕ × Option Bytes)
    read_string (high ∷ low ∷ bytes) =
        let len = signed_be16 high low in
        if ltb (length bytes) len then none else some (len + 3, some (take len bytes))
    read_string _ = none

-- amf_decode_number: the result, and the bytes of `*number` where they are set.
unfoldable pub decode_number : (input : Bytes) → Option (ℕ × Option Bytes)
decode_number [] = none
decode_number (marker ∷ rest) =
    if not (marker == 0)
    then some (0, none)
    else if ltb (length rest) 8
    then none
    else some (9, some (reverse (take 8 rest)))

-- amf_decode_boolean
unfoldable pub decode_boolean : (input : Bytes) → Option (ℕ × Option Bool)
decode_boolean [] = none
decode_boolean (marker ∷ []) = if not (marker == 1) then some (0, none) else none
decode_boolean (marker ∷ b ∷ rest) =
    if not (marker == 1) then some (0, none) else some (2, some (not (b == 0)))

abbrev pub max_perf_entries : ℕ
max_perf_entries = 100

-- Times in microseconds.
pub record PerfEntry : Type 0 where
  pub name : Bytes
  pub start : ℕ
  pub end : ℕ
  pub duration : ℕ

-- rtmp_perf_start, on the entries below `perf_count`. The name is cut by `strncpy`; `stale` is the
-- rest of the entry.
unfoldable pub perf_start :
    (name : Bytes) → (now : ℕ) → (stale : PerfEntry) → List PerfEntry → List PerfEntry
perf_start name now stale entries =
    if ltb (length entries) max_perf_entries
    then entries ++ record stale { name = take 63 name; start = now } ∷ []
    else entries

-- A difference of times on `uint64_t`.
unfoldable pub elapsed : (start now : ℕ) → ℕ
elapsed start now = (now + 2 ^ 64 - start) % 2 ^ 64

-- rtmp_perf_end
unfoldable pub perf_end : (name : Bytes) → (now : ℕ) → List PerfEntry → List PerfEntry
unfolding elapsed
perf_end name now [] = []
perf_end name now (e ∷ entries) =
    let rest = perf_end name now entries in
    if same_bytes e.name name
    then record e { end = now; duration = elapsed e.start now } ∷ entries
    else e ∷ rest

-- rtmp_perf_reset
unfoldable pub perf_reset : List PerfEntry → List PerfEntry
perf_reset entries = []

-- rtmp_error_string
unfoldable pub error_string : (error : ℕ) → Bytes
error_string error =
    get_or
      (codes "No error"
        ∷ codes "Failed to create socket"
        ∷ codes "Failed to connect socket"
        ∷ codes "Handshake failed"
        ∷ codes "Publish failed"
        ∷ codes "Write failed"
        ∷ codes "Read failed"
        ∷ codes "Out of memory"
        ∷ codes "Invalid parameter"
        ∷ [])
      error (codes "Unknown error")
