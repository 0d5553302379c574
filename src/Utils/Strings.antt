-- ===== src/Utils/Strings.antt =====
-- rtmp_utils.c: what amf_decode_string makes of the strings that amf_encode_string writes.
use rtmpcamera.Prelude.{
  ◌+◌, ◌/◌, ◌%◌, ◌≤◌, ◌<◌, ◌≡◌, none, some, ◌++◌, arith, length, length-append, take_append, u8,
}
use rtmpcamera.Utils.{Bytes, encode_string, decode_string, signed_be16}

decode-small :
    (str rest : Bytes)
    → length str < 65536
    → length str % 256 < 128
    → signed_be16 (u8 (length str / 256)) (u8 (length str)) ≡ length str
decode-small str rest h k = ground arith

-- A string of less than 2^16 bytes whose length has a low byte below 128 comes back from
-- amf_decode_string as it went into amf_encode_string, whatever stands behind it.
pub decode_string-encode_string :
    (str rest : Bytes)
    → length str < 65536
    → length str % 256 < 128
    → decode_string (encode_string str ++ rest) ≡ some (length str + 3, some str)
unfolding decode_string encode_string
decode_string-encode_string str rest h k =
    ground (arith, decode-small str rest h k, take_append str rest, length-append str rest)

decode-wide :
    (str : Bytes)
    → 128 ≤ length str % 256
    → signed_be16 (u8 (length str / 256)) (u8 (length str)) ≡ 65280 + length str % 256
decode-wide str k = ground arith

-- When the low byte of the length is 128 or more, amf_decode_string takes the length for one of more
-- than 65280 bytes, and reads out of bounds unless that many follow.
pub decode_string_out_of_bounds :
    (str rest : Bytes)
    → 128 ≤ length str % 256
    → length str + length rest < 65408
    → decode_string (encode_string str ++ rest) ≡ none
unfolding decode_string encode_string
decode_string_out_of_bounds str rest k h = ground (arith, decode-wide str k, length-append str rest)
