-- ===== src/Amf/Decode.antt =====
-- rtmp_amf.c: the decoders. `ok (a, n)` is a return of 1 with `*bytes_read = n`, `failed` a
-- return of 0.
--
-- rtmp_amf_decode_value and rtmp_amf_decode_object call one another, so they run on fuel;
-- `out_of_fuel` has no counterpart in the program. rtmp_amf_decode_array is declared and defined
-- nowhere: it is a parameter.
use rtmpcamera.Prelude.{
  ℕ, zero, suc, ◌+◌, Bool, not, ◌&&◌, length, take, drop, get_or, ltb, ◌==◌, if◌then◌else◌,
}
use rtmpcamera.Amf.{
  Bytes, Value, number, boolean, string, object, null, undefined, Properties, no_properties,
  property, amf0_number, amf0_boolean, amf0_string, amf0_null, amf0_undefined, amf0_object,
  amf0_object_end, amf0_strict_array, amf_number_size, amf_boolean_size, read_be16, read_be64,
}

pub data Result {ℓ} (A : Type ℓ) : Type ℓ where
  ok : A → Result A
  failed out_of_fuel : Result A

-- the byte at `i` of a buffer that is long enough
abbrev pub at : Bytes → ℕ → ℕ
at buffer i = get_or buffer i 0

unfoldable pub decode_number : Bytes → Result (ℕ × ℕ)
unfolding read_be64
decode_number buffer =
    if ltb (length buffer) amf_number_size
    then failed
    else if not (at buffer 0 == amf0_number)
    then failed
    else ok (read_be64 (drop 1 buffer), amf_number_size)

unfoldable pub decode_boolean : Bytes → Result (Bool × ℕ)
decode_boolean buffer =
    if ltb (length buffer) amf_boolean_size
    then failed
    else if not (at buffer 0 == amf0_boolean)
    then failed
    else ok (not (at buffer 1 == 0), amf_boolean_size)

-- the bytes copied to `*str`; their number is `*str_size`
unfoldable pub decode_string : Bytes → Result (Bytes × ℕ)
unfolding read_be16
decode_string buffer =
    if ltb (length buffer) 3
    then failed
    else if not (at buffer 0 == amf0_string)
    then failed
    else let size = read_be16 (drop 1 buffer) in
      if ltb (length buffer) (3 + size) then failed else ok (take size (drop 3 buffer), 3 + size)

abbrev pub map_result {ℓ κ} : {A : Type ℓ} {B : Type κ} → (A → B) → Result A → Result B
map_result f (ok a) = ok (f a)
map_result f failed = failed
map_result f out_of_fuel = out_of_fuel

-- the test for the end of an object
abbrev pub at_end : Bytes → Bool
at_end buffer = (at buffer 0 == 0) && ((at buffer 1 == 0) && (at buffer 2 == amf0_object_end))

-- A property that was read, in front of the rest of the loop: `used` bytes before that rest.
abbrev pub add_property :
    (used : ℕ) → Bytes → Value → Result (Properties × ℕ) → Result (Properties × ℕ)
add_property used name v = map_result (λ (ps, n). (property name v ps, used + n))

-- The loop's body behind the property's name, which took `used` bytes: a value that does not
-- decode ends the loop.
abbrev pub add_value :
    (used : ℕ)
    → Bytes
    → (rest : ℕ → Result (Properties × ℕ)) → Result (Value × ℕ)
    → Result (Properties × ℕ)
add_value used name rest (ok (v, n)) = add_property (used + n) name v (rest n)
add_value used name rest failed = ok (no_properties, used)
add_value used name rest out_of_fuel = out_of_fuel

abbrev pub of_object : Result (Properties × ℕ) → Result (Value × ℕ)
of_object = map_result (λ (ps, n). (object ps, n + 1))

module _ (decode_array : Bytes → Result (Value × ℕ)) where
  unfoldable mutual
    pub decode_value : ℕ → Bytes → Result (Value × ℕ)
    decode_value zero buffer = out_of_fuel
    decode_value (suc f) buffer =
        let within = of_object (decode_properties f (drop 1 buffer)) in
        if ltb (length buffer) 1
        then failed
        else if at buffer 0 == amf0_number
        then map_result (λ (bits, n). (number bits, n)) (decode_number buffer)
        else if at buffer 0 == amf0_boolean
        then map_result (λ (b, n). (boolean b, n)) (decode_boolean buffer)
        else if at buffer 0 == amf0_string
        then map_result (λ (str, n). (string str (length str), n)) (decode_string buffer)
        else if at buffer 0 == amf0_object
        then within
        else if at buffer 0 == amf0_null
        then ok (null, 1)
        else if at buffer 0 == amf0_undefined
        then ok (undefined, 1)
        else if at buffer 0 == amf0_strict_array
        then decode_array buffer
        else failed

    -- the loop of rtmp_amf_decode_object, with the bytes that it steps over
    pub decode_properties : ℕ → Bytes → Result (Properties × ℕ)
    decode_properties zero buffer = out_of_fuel
    decode_properties (suc f) buffer =
        let name_len = read_be16 buffer in
        let behind = drop (2 + name_len) buffer in
        let next =
          add_value (2 + name_len) (take name_len (drop 2 buffer))
            (λ n. decode_properties f (drop n behind)) (decode_value f behind) in
        if ltb (length buffer) 3
        then ok (no_properties, 0)
        else if at_end buffer
        then ok (no_properties, 3)
        else if ltb (length buffer) (2 + name_len)
        then ok (no_properties, 2)
        else next

  -- rtmp_amf_decode_object
  unfoldable pub decode_object : ℕ → Bytes → Result (Value × ℕ)
  decode_object f buffer =
      let within = of_object (decode_properties f (drop 1 buffer)) in
      if ltb (length buffer) 1
      then failed
      else if not (at buffer 0 == amf0_object)
      then failed
      else within
