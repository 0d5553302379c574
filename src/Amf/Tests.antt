-- ===== src/Amf/Tests.antt =====
-- Runs of rtmp_amf.c on concrete values and buffers, and the theorems at them.
use mathlib.Core.List.{Perm}
use rtmpcamera.Prelude.{
  ℕ, zero, suc, ◌≡◌, refl, ap, true, [], ◌∷◌, ◌++◌, length, take, drop, codes, arith,
}
use rtmpcamera.Amf.{
  Bytes, Value, number, boolean, string, object, null, property, no_properties, write_be16,
  write_be64,
}
use rtmpcamera.Amf.Encode.{encode_publish, encode_play, encode_create_stream}
use rtmpcamera.Amf.Decode.{Result, ok, failed, decode_value, decode_object}
use rtmpcamera.Amf.Copy.{value_copy, until_nul}
use rtmpcamera.Amf.Copied.{IsPlain, IsText, value_copy-IsPlain}
use rtmpcamera.Amf.Free.{Block, value_free, copy_blocks, value_free-value_copy}
use rtmpcamera.Amf.Wire.{wire, IsWire}
use rtmpcamera.Amf.RoundTrip.{decode_value-wire}
use rtmpcamera.Amf.Total.{Reads, decode_value_total}
use rtmpcamera.Amf.Emits.{wire_all, Wrote}
use rtmpcamera.Amf.Commands.{text, publish_values, play_values, create_stream_values, commands-wire}
use rtmpcamera.Amf.LongName.{encode_publish_long_name}

abbrev no_array : Bytes → Result (Value × ℕ)
no_array buffer = failed

-- `{fps: 30.0, info: {on: true}}`
abbrev info : Value
info = object (
    property (codes "fps") (number 4629137466983448576) (
      property (codes "info") (object (property (codes "on") (boolean true) no_properties))
        no_properties))

info_bytes : length (wire info) ≡ 34
unfolding wire write_be16 write_be64
info_bytes = omega arith

decode_value-wire_example :
    decode_value no_array 40 (wire info ++ (5 ∷ [])) ≡ ok (info, length (wire info))
unfolding IsWire
decode_value-wire_example =
    decode_value-wire no_array info 40 (5 ∷ [])
      (omega arith, omega arith, (omega arith, (omega arith, tt, tt), tt))
      (omega (arith, info_bytes))

-- An object cut off inside its second property.
abbrev cut : Bytes
cut = 3 ∷ 0 ∷ 1 ∷ 97 ∷ 5 ∷ 0 ∷ 9 ∷ 98 ∷ []

decode_value_total_example :
    Reads 8 (decode_value no_array 9 cut) × Reads 8 (decode_object no_array 9 cut)
decode_value_total_example = decode_value_total no_array (λ b. tt) 9 cut (omega arith)

-- `n` letters a
unfoldable letters : ℕ → Bytes
letters zero = []
letters (suc n) = 97 ∷ letters n

length-letters : (n : ℕ) → length (letters n) ≡ n
unfolding letters
length-letters zero = refl
length-letters (suc n) = ap suc (length-letters n)

commands-wire_example :
    Wrote
      (wire_all (publish_values (codes "cam")))
      (letters 40)
      (encode_publish (codes "cam") (letters 40))
    × Wrote
        (wire_all (play_values (codes "cam")))
        (letters 40)
        (encode_play (codes "cam") (letters 40))
    × Wrote
        (wire_all (create_stream_values 0))
        (letters 40)
        (encode_create_stream (λ n. 0) 4 (letters 40))
commands-wire_example =
    commands-wire (λ n. 0) 4 (codes "cam") (letters 40) (omega arith)
      (omega (arith, length-letters 40))

encode_publish_long_name_run :
    let seen = wire_all (text (codes "publish") ∷ number 0 ∷ null ∷ []) in
    Wrote
      (seen ++ (take 1 (drop (length seen) (letters 60)) ++ wire (text (codes "live"))))
      (letters 60)
      (encode_publish (letters 65536) (letters 60))
encode_publish_long_name_run =
    encode_publish_long_name (letters 65536) (letters 60) (omega (arith, length-letters 65536))
      (omega (arith, length-letters 60))

abbrev named : Value
named =
    object (property (codes "a") (string (codes "xy") 2) (property (codes "b") null no_properties))

value_copy-IsPlain_run : value_copy named ≡ named
unfolding IsPlain IsText
value_copy-IsPlain_run =
    value_copy-IsPlain named
      ((omega arith, tt), (omega arith, (omega arith, tt)), ((omega arith, tt), tt, tt))

-- A text with a NUL keeps its size and loses its end.
copy_cut : value_copy (string (97 ∷ 0 ∷ 98 ∷ []) 3) ≡ string (97 ∷ []) 3
unfolding value_copy until_nul
copy_cut = refl

-- The blocks of an object in an object.
value_free-value_copy_example : Perm (value_free (value_copy info)) (
    Block.value
    ∷ Block.table 2
    ∷ Block.table 2
    ∷ Block.text (codes "fps")
    ∷ Block.value
    ∷ Block.text (codes "info")
    ∷ Block.value
    ∷ Block.table 1
    ∷ Block.table 1
    ∷ Block.text (codes "on")
    ∷ Block.value
    ∷ [])
unfolding copy_blocks until_nul
value_free-value_copy_example = value_free-value_copy info
