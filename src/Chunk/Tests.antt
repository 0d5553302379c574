-- ===== src/Chunk/Tests.antt =====
-- Runs of rtmp_chunk.c on concrete headers and messages, and the theorems at them.
use rtmpcamera.Prelude.{
  ◌+◌, ◌*◌, ◌≡◌, refl, Bool, true, false, none, some, List, [], ◌∷◌, ◌++◌, arith,
}
use rtmpcamera.Chunk.{
  Bytes, Header, State, write_basic_header, read_basic_header, get_chunk_type, set_size, get_size,
  get_or_create, context_create, zero_header, set_chunk,
}
use rtmpcamera.Chunk.Write.{
  Packet, chunk_write, write_header, send_payload, out_of_fuel, message_header,
}
use rtmpcamera.Chunk.Read.{chunk_read, out_of_bounds, returned, header_size}
use rtmpcamera.Chunk.Wire.{Split, last, next}
use rtmpcamera.Chunk.Fields.{IsWire, ReadsBack, merged, basic_inverse, write_header-ReadsBack}
use rtmpcamera.Chunk.Limits.{ReadsAs, write_header_short, write_header_wide}
use rtmpcamera.Chunk.Sending.{send_payload_stuck}
use rtmpcamera.Chunk.Message.{Written, header_of, slot_of, chunk_write-Written}
use rtmpcamera.Chunk.Receiving.{idle, packet_of, Delivers, within}
use rtmpcamera.Chunk.Repeats.{ReadBy, chunk_write-ReadBy}
use rtmpcamera.Chunk.Reassembly.{reads, reads-Delivers}
use rtmpcamera.Chunk.Faults.{
  get_chunk_type-merged, chunk_read_wide, chunk_read_compressed, chunk_read_overflow,
}

-- 5 bytes of video on stream 6, at 1000 ms.
abbrev video : Header
video = record { timestamp = 1000; message_length = 5; message_type = 9; message_stream_id = 6 }

video-IsWire : IsWire video
video-IsWire = (omega arith, omega arith, omega arith, omega arith)

-- 16 bytes
abbrev memory : Bytes
memory = 1 ∷ 2 ∷ 3 ∷ 4 ∷ 5 ∷ 6 ∷ 7 ∷ 8 ∷ 9 ∷ 10 ∷ 11 ∷ 12 ∷ 13 ∷ 14 ∷ 15 ∷ 16 ∷ []

abbrev empty : State
empty = record { chunks = λ i. none; chunk_size = 3 }

abbrev takes : List Bytes → Bytes → Bool
takes sent bytes = true

set_size_clamped : get_size (set_size 70000 (some empty)) ≡ 65536
unfolding get_size set_size
set_size_clamped = refl

write_header-ReadsBack_example : ReadsBack video zero_header 1 (write_header memory video 1)
write_header-ReadsBack_example =
    write_header-ReadsBack video zero_header 1 memory (omega arith) video-IsWire (omega arith)
      (omega arith) (omega arith)

basic_inverse_run : read_basic_header (write_basic_header 2 1000 ++ 7 ∷ []) ≡ some (2, 1000)
basic_inverse_run = basic_inverse 2 1000 (7 ∷ []) (omega arith) (omega arith) (omega arith)

write_header_short_run :
    write_header (1 ∷ 2 ∷ 3 ∷ 4 ∷ 5 ∷ 6 ∷ 7 ∷ 8 ∷ 9 ∷ 10 ∷ 11 ∷ []) video 0 ≡ none
write_header_short_run =
    write_header_short (1 ∷ 2 ∷ 3 ∷ 4 ∷ 5 ∷ 6 ∷ 7 ∷ 8 ∷ 9 ∷ 10 ∷ 11 ∷ []) video refl

abbrev wide_video : Header
wide_video = record video { message_stream_id = 100; timestamp = 200000 }

write_header_wide_run : ReadsAs 0 67 (write_header memory wide_video 0)
write_header_wide_run =
    write_header_wide memory wide_video 0 (omega arith) (omega arith) (omega arith) (omega arith)
      (omega arith)

send_payload_stuck_run : send_payload takes 100 0 201 (1 ∷ 2 ∷ []) [] ≡ out_of_fuel
send_payload_stuck_run =
    send_payload_stuck takes (λ sent bytes. refl) 100 201 (1 ∷ 2 ∷ []) [] (omega arith)

abbrev frame : Packet
frame = record { type = 9; contents = 1 ∷ 2 ∷ 3 ∷ 4 ∷ 5 ∷ []; timestamp = 1000; stream_id = 6 }

chunk_write-Written_example :
    Written
      (get_chunk_type (header_of frame) (get_or_create (empty.chunks (slot_of frame))).prev_header
          * 64
        + 6)
      frame
      empty
      (chunk_write takes 10 memory frame empty)
chunk_write-Written_example =
    chunk_write-Written takes (λ sent bytes. refl) 10 memory frame empty refl (omega arith)
      (omega arith) (omega arith) (omega arith)

frame-Split :
    Split 3 198 (1 ∷ 2 ∷ 3 ∷ 4 ∷ 5 ∷ []) ((1 ∷ 2 ∷ 3 ∷ []) ∷ (198 ∷ []) ∷ (4 ∷ 5 ∷ []) ∷ [])
frame-Split = next {piece = 1 ∷ 2 ∷ 3 ∷ []} refl (omega arith) (last (omega arith) (omega arith))

reads-Delivers_example : Delivers (packet_of video (1 ∷ 2 ∷ 3 ∷ 4 ∷ 5 ∷ [])) ((6 ∷ []) ∷ []) (
    reads 3 zero_header
      ((6 ∷ [])
        ∷ message_header video 0
        ∷ (1 ∷ 2 ∷ 3 ∷ [])
        ∷ (198 ∷ [])
        ∷ (4 ∷ 5 ∷ [])
        ∷ (6 ∷ [])
        ∷ [])
      empty)
unfolding get_or_create context_create
reads-Delivers_example =
    reads-Delivers video zero_header 6 3 video-IsWire (omega arith) (omega arith) zero_header 0 0 0
      _ _ ((6 ∷ []) ∷ []) empty frame-Split refl refl (omega arith) refl

-- The second of two frames of five bytes, in chunks of three.
abbrev repeated : Packet
repeated = record { type = 9; contents = 1 ∷ 2 ∷ 3 ∷ 4 ∷ 5 ∷ []; timestamp = 1000; stream_id = 9 }

abbrev behind_first : State
behind_first = set_chunk 9 (idle (header_of repeated) 0 0 0) empty

chunk_write-ReadBy_example :
    ReadBy zero_header repeated
      ((9 ∷ []) ∷ [])
      behind_first
      (chunk_write takes 10 memory repeated behind_first)
unfolding get_or_create
chunk_write-ReadBy_example =
    chunk_write-ReadBy takes (λ sent bytes. refl) zero_header 10 memory repeated ((9 ∷ []) ∷ []) 0 0
      0 behind_first behind_first refl (omega arith) (omega arith) refl (omega arith) (omega arith)
      refl (omega arith) (omega arith) (omega arith) refl refl

get_chunk_type-merged_run :
    merged video
      (record video { timestamp = 900 })
      (get_chunk_type video (record video { timestamp = 900 }))
    ≡ video
get_chunk_type-merged_run = get_chunk_type-merged video (record video { timestamp = 900 })

chunk_read_wide_run : chunk_read 0 zero_header ((64 ∷ []) ∷ (9 ∷ []) ∷ []) empty ≡ out_of_bounds
chunk_read_wide_run = chunk_read_wide 0 64 zero_header ((9 ∷ []) ∷ []) empty (omega arith)

chunk_read_compressed_run :
    chunk_read 0 zero_header ((134 ∷ []) ∷ (0 ∷ 0 ∷ 40 ∷ []) ∷ []) empty
    ≡ returned false none [] (set_chunk 6 (get_or_create (empty.chunks 6)) empty)
unfolding header_size
chunk_read_compressed_run =
    chunk_read_compressed 2 6 zero_header (0 ∷ 0 ∷ 40 ∷ []) [] empty (omega arith) (omega arith)
      (omega arith) (omega arith) refl

-- 3 of 4 bytes have arrived on stream 6.
abbrev midway : State
midway = set_chunk 6 (within video 4 0 (1 ∷ 2 ∷ 3 ∷ [])) empty

chunk_read_overflow_example :
    chunk_read 0 zero_header ((6 ∷ []) ∷ message_header video 0 ∷ (8 ∷ 8 ∷ []) ∷ []) midway
    ≡ out_of_bounds
chunk_read_overflow_example =
    chunk_read_overflow video zero_header video 0 4 6 (1 ∷ 2 ∷ 3 ∷ []) (8 ∷ 8 ∷ []) [] midway
      video-IsWire (omega arith) (omega arith) refl (omega arith) (omega arith) (omega arith)
