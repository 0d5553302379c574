-- ===== src/Amf/Encode.antt =====
-- rtmp_amf.c: the encoders. A simple one gives the bytes that it writes, `none` where it returns
-- 0 and writes nothing.
--
-- The commands ignore these results and step over `tmp_size` bytes after each call, which is the
-- size of the last call that succeeded. So a command runs on an `Out`: the bytes passed so far,
-- the memory of the caller's buffer that follows, and `tmp_size`; `none` is a write or a step
-- past that buffer's end. `write_be24` is called by rtmp_amf_encode_object_end and defined
-- nowhere in the repository: it is a parameter, and so is the conversion of a `uint32_t` to
-- `double`.
use rtmpcamera.Prelude.{
  ℕ, Bool, Option, none, some, List, [], ◌∷◌, ◌++◌, length, take, drop, ltb, if◌then◌else◌, ◌>>=◌,
  codes,
}
use rtmpcamera.Amf.{
  Bytes, amf0_number, amf0_boolean, amf0_string, amf0_null, amf0_undefined, amf0_object,
  amf0_object_end, amf_max_string_len, write_be16, write_be64,
}

unfoldable pub encode_number : (bits : ℕ) → Option Bytes
encode_number bits = some (amf0_number ∷ write_be64 bits)

-- `true`: the int is not 0
unfoldable pub encode_boolean : Bool → Option Bytes
encode_boolean value = some (amf0_boolean ∷ (if value then 1 else 0) ∷ [])

-- `str` is the text before its NUL
unfoldable pub encode_string : Bytes → Option Bytes
encode_string str =
    if ltb amf_max_string_len (length str)
    then none
    else some (amf0_string ∷ write_be16 (length str) ++ str)

unfoldable pub encode_null : Option Bytes
encode_null = some (amf0_null ∷ [])

unfoldable pub encode_undefined : Option Bytes
encode_undefined = some (amf0_undefined ∷ [])

unfoldable pub encode_object_start : Option Bytes
encode_object_start = some (amf0_object ∷ [])

pub record Out : Type 0 where
  pub written : Bytes
  pub memory : Bytes
  pub tmp_size : ℕ

abbrev pub start : (memory : Bytes) → Out
start memory = record { written = []; memory = memory; tmp_size = 0 }

-- `buffer += n` over bytes `bs`, which the call wrote there
abbrev pub pass : Bytes → Out → Option Out
pass bs o =
    if ltb (length o.memory) (length bs)
    then none
    else some (record {
      written = o.written ++ bs;
      memory = drop (length bs) o.memory;
      tmp_size = length bs;
    })

-- one `rtmp_amf_encode_…(…, buffer, &tmp_size); buffer += tmp_size;`
unfoldable pub emit : Option Bytes → Out → Option Out
emit none o =
    if ltb (length o.memory) o.tmp_size
    then none
    else some (record o {
      written = o.written ++ take o.tmp_size o.memory;
      memory = drop o.tmp_size o.memory;
    })
emit (some bs) o = pass bs o

-- the calls of a command, in order
unfoldable pub emit_all : List (Option Bytes) → Out → Option Out
emit_all [] o = some o
emit_all (call ∷ calls) o = emit call o >>= emit_all calls

-- the bit pattern of 1.0
abbrev pub double_one : ℕ
double_one = 0x3FF0000000000000

-- `transaction_id` as a double
unfoldable pub encode_create_stream :
    (double_of : ℕ → ℕ) → (transaction_id : ℕ) → Bytes → Option Out
encode_create_stream double_of transaction_id memory =
    emit_all
      (encode_string (codes "createStream")
        ∷ encode_number (double_of transaction_id)
        ∷ encode_null
        ∷ [])
      (start memory)

unfoldable pub encode_play : (stream_name : Bytes) → Bytes → Option Out
encode_play stream_name memory =
    emit_all
      (encode_string (codes "play")
        ∷ encode_number 0
        ∷ encode_null
        ∷ encode_string stream_name
        ∷ [])
      (start memory)

unfoldable pub encode_publish : (stream_name : Bytes) → Bytes → Option Out
encode_publish stream_name memory =
    emit_all
      (encode_string (codes "publish")
        ∷ encode_number 0
        ∷ encode_null
        ∷ encode_string stream_name
        ∷ encode_string (codes "live")
        ∷ [])
      (start memory)

-- the copied bytes of `contents` follow the two strings
unfoldable pub encode_metadata : (name contents : Bytes) → Bytes → Option Out
encode_metadata name contents memory =
    emit_all (encode_string (codes "@setDataFrame") ∷ encode_string name ∷ some contents ∷ [])
      (start memory)

module _ (write_be24 : ℕ → Bytes) where
  unfoldable pub encode_object_end : Option Bytes
  encode_object_end = some (write_be24 0 ++ amf0_object_end ∷ [])

  unfoldable pub encode_connect : (app swf_url tc_url : Bytes) → Bytes → Option Out
  encode_connect app swf_url tc_url memory =
      emit_all
        (encode_string (codes "connect")
          ∷ encode_number double_one
          ∷ encode_object_start
          ∷ encode_string (codes "app")
          ∷ encode_string app
          ∷ encode_string (codes "flashVer")
          ∷ encode_string (codes "WIN 12,0,0,44")
          ∷ encode_string (codes "swfUrl")
          ∷ encode_string swf_url
          ∷ encode_string (codes "tcUrl")
          ∷ encode_string tc_url
          ∷ encode_object_end
          ∷ [])
        (start memory)
