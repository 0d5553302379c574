-- ===== src/Amf/Commands.antt =====
-- The commands that rtmp_amf.c writes into the caller's buffer.
use rtmpcamera.Prelude.{
  ℕ, ◌+◌, ◌≤◌, ◌≡◌, refl, List, [], ◌∷◌, ◌++◌, length, length-append, some, arith, codes,
}
use rtmpcamera.Amf.{Bytes, Value, number, string, null, write_be16, write_be64, amf_max_string_len}
use rtmpcamera.Amf.Encode.{
  start, encode_string, encode_number, encode_null, encode_publish, encode_play,
  encode_create_stream,
}
use rtmpcamera.Amf.Wire.{wire}
use rtmpcamera.Amf.Emits.{wire_all, Wrote, emit_all-wire}

-- A text as a value.
abbrev pub text : Bytes → Value
text str = string str (length str)

pub encode_string-wire :
    (str : Bytes) → length str ≤ amf_max_string_len → encode_string str ≡ some (wire (text str))
unfolding encode_string wire
encode_string-wire str h = ground arith

-- The values of the publish, play and createStream commands.
abbrev pub publish_values : Bytes → List Value
publish_values name =
    text (codes "publish") ∷ number 0 ∷ null ∷ text name ∷ text (codes "live") ∷ []

abbrev pub play_values : Bytes → List Value
play_values name = text (codes "play") ∷ number 0 ∷ null ∷ text name ∷ []

abbrev pub create_stream_values : (transaction_id : ℕ) → List Value
create_stream_values id = text (codes "createStream") ∷ number id ∷ null ∷ []

pub encode_number-wire : (bits : ℕ) → encode_number bits ≡ some (wire (number bits))
unfolding encode_number wire
encode_number-wire bits = refl

pub encode_null-wire : encode_null ≡ some (wire null)
unfolding encode_null wire
encode_null-wire = refl

length-publish_values : (name : Bytes) → length (wire_all (publish_values name)) ≡ 30 + length name
unfolding wire_all wire write_be16 write_be64
length-publish_values name = omega (arith, length-append name (wire (text (codes "live")) ++ []))

length-play_values : (name : Bytes) → length (wire_all (play_values name)) ≡ 20 + length name
unfolding wire_all wire write_be16 write_be64
length-play_values name = omega (arith, length-append name [])

length-create_stream_values : (id : ℕ) → length (wire_all (create_stream_values id)) ≡ 25
unfolding wire_all wire write_be16 write_be64
length-create_stream_values id = omega arith

-- Given a stream name of at most 65535 bytes and room for the command, the publish, play and
-- createStream commands write exactly the AMF0 encodings of their values, in order, and touch
-- nothing behind them.
pub commands-wire :
    (double_of : ℕ → ℕ) (id : ℕ) (name memory : Bytes)
    → length name ≤ amf_max_string_len
    → 30 + length name ≤ length memory
    → Wrote (wire_all (publish_values name)) memory (encode_publish name memory)
      × Wrote (wire_all (play_values name)) memory (encode_play name memory)
      × Wrote
          (wire_all (create_stream_values (double_of id)))
          memory
          (encode_create_stream double_of id memory)
unfolding encode_publish encode_play encode_create_stream
commands-wire double_of id name memory h k =
    let word = λ (str : Bytes) (le : length str ≤ amf_max_string_len). encode_string-wire str le in
    let named = word name h in
    (
      emit_all-wire _ (publish_values name) memory (start memory)
          (
            word _ (omega arith),
            (encode_number-wire 0, (encode_null-wire, (named, (word _ (omega arith), tt)))),
          )
          refl (omega (arith, length-publish_values name)),
      emit_all-wire _ (play_values name) memory (start memory)
          (word _ (omega arith), (encode_number-wire 0, (encode_null-wire, (named, tt)))) refl
          (omega (arith, length-play_values name)),
      emit_all-wire _ (create_stream_values (double_of id)) memory (start memory)
          (word _ (omega arith), (encode_number-wire (double_of id), (encode_null-wire, tt))) refl
          (omega (arith, length-create_stream_values (double_of id))),
    )
