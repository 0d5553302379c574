-- ===== src/Utils/Tests.antt =====
-- Runs of rtmp_utils.c on concrete inputs, and the theorems at them.
use rtmpcamera.Prelude.{◌≡◌, refl, true, none, some, [], ◌∷◌, ◌++◌, arith, codes}
use rtmpcamera.Utils.{
  Bytes, PerfEntry, Packet, packet_create, packet_alloc, packet_copy, buffer_create, buffer_reset,
  buffer_size, zeros, encode_string, decode_string, encode_number, decode_number, encode_boolean,
  decode_boolean, perf_start, perf_end, perf_reset, error_string,
}
use rtmpcamera.Utils.Logging.{LogLevel, log, get_timestamp, sleep_ms, packet_free}
use rtmpcamera.Utils.Strings.{decode_string-encode_string, decode_string_out_of_bounds}
use rtmpcamera.Utils.Perf.{perf_end-perf_start}

decode_string-encode_string_run :
    decode_string (encode_string (codes "app") ++ 0 ∷ []) ≡ some (6, some (codes "app"))
decode_string-encode_string_run =
    decode_string-encode_string (codes "app") (0 ∷ []) (omega arith) (omega arith)

-- A name of 128 bytes.
abbrev wide : Bytes
wide = zeros 128

decode_string_out_of_bounds_run : decode_string (encode_string wide ++ []) ≡ none
decode_string_out_of_bounds_run = decode_string_out_of_bounds wide [] (omega arith) (omega arith)

abbrev blank : PerfEntry
blank = record { name = []; start = 0; end = 0; duration = 0 }

perf_end-perf_start_example :
    perf_end (codes "encode") 700 (perf_start (codes "encode") 500 blank [])
    ≡ record { name = codes "encode"; start = 500; end = 700; duration = 200 } ∷ []
perf_end-perf_start_example =
    perf_end-perf_start (codes "encode") 500 700 blank [] tt (omega arith) (omega arith)
      (omega arith)

perf_reset-nil : perf_reset (blank ∷ []) ≡ []
unfolding perf_reset
perf_reset-nil = refl

-- A buffer of 4 bytes is overrun; of 10 bytes 2 are kept.
buffer_reset-create : buffer_reset (buffer_create 4) ≡ none
unfolding buffer_reset buffer_create buffer_size
buffer_reset-create = refl

buffer_reset-long : buffer_reset (zeros 8 ++ 1 ∷ 2 ∷ []) ≡ some (zeros 8 ++ 1 ∷ 2 ∷ [])
unfolding buffer_reset buffer_size
buffer_reset-long = refl

number-encoded :
    decode_number (encode_number (1 ∷ 2 ∷ 3 ∷ 4 ∷ 5 ∷ 6 ∷ 7 ∷ 8 ∷ []))
    ≡ some (9, some (1 ∷ 2 ∷ 3 ∷ 4 ∷ 5 ∷ 6 ∷ 7 ∷ 8 ∷ []))
unfolding decode_number encode_number
number-encoded = refl

boolean-encoded : decode_boolean (encode_boolean true) ≡ some (2, some true)
unfolding decode_boolean encode_boolean
boolean-encoded = refl

abbrev sample : Packet
sample = record { contents = some (7 ∷ 8 ∷ []); size = 2; timestamp = 5; type = 9; stream_id = 1 }

packet_copy-sample : packet_copy (some (zeros 2)) sample ≡ some sample
unfolding packet_copy packet_create packet_alloc
packet_copy-sample = refl

error_string-nine : error_string 9 ≡ codes "Unknown error"
unfolding error_string
error_string-nine = refl

log-gate :
    (log LogLevel.debug (codes "x") LogLevel.info ≡ [])
    × (log LogLevel.error (codes "x") LogLevel.info ≡ codes "[RTMP-ERROR] x" ++ 10 ∷ [])
unfolding log
log-gate = (refl, refl)

-- A sleep of 4294968 milliseconds ends after 704 microseconds.
sleep_ms-wraps : sleep_ms 4294968 ≡ 704
unfolding sleep_ms
sleep_ms-wraps = refl

get_timestamp-first : get_timestamp 12 345678 ≡ 12345
unfolding get_timestamp
get_timestamp-first = refl

packet_free-sample : packet_free sample ≡ (7 ∷ 8 ∷ []) ∷ []
unfolding packet_free
packet_free-sample = refl
