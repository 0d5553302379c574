-- ===== src/Amf/RoundTrip.antt =====
-- The decoders of rtmp_amf.c read back what is encoded.
use rtmpcamera.Prelude.{
  ℕ, zero, suc, ◌+◌, ◌≤◌, ◌<◌, ◌≡◌, refl, ◌≢◌, ◌∷◌, ◌++◌, append_assoc, length, length-append,
  drop_append, true, false, arith,
}
use rtmpcamera.Amf.{
  Bytes, Value, number, boolean, string, object, null, undefined, array, date, Properties,
  no_properties, property, write_be16, amf_max_string_len,
}
use rtmpcamera.Amf.Decode.{Result, ok, decode_boolean, decode_value, decode_properties, at}
use rtmpcamera.Amf.Layout.{
  read_be16-write_be16, length-write_be16, length-write_be64, decode_number-wire,
  decode_string-wire, at_end-named, take-name, drop-name, length-named,
}
use rtmpcamera.Amf.Wire.{wire, wire_properties, IsWire, AreWire}

-- A value's marker is not the end marker, so an empty name before it is no end.
wire-marker : (v : Value) (rest : Bytes) → IsWire v → at (wire v ++ rest) 0 ≢ 9
unfolding wire IsWire
wire-marker (boolean true) rest h = omega arith
wire-marker (boolean false) rest h = omega arith
wire-marker (array xs) rest h = absurd h
wire-marker (date bits) rest h = absurd h
wire-marker _ rest h = omega arith

wire-pos : (v : Value) → IsWire v → 0 < length (wire v)
unfolding wire IsWire
wire-pos (boolean true) h = omega arith
wire-pos (boolean false) h = omega arith
wire-pos (array xs) h = absurd h
wire-pos (date bits) h = absurd h
wire-pos _ h = omega arith

module _ (decode_array : Bytes → Result (Value × ℕ)) where
  -- One property of an object, once its value and the rest of the object are known to decode.
  decode_properties-property :
      (f : ℕ) (name w tail : Bytes) (v : Value) (ps : Properties)
      → length name ≤ amf_max_string_len
      → at (w ++ tail) 0 ≢ 9
      → 0 < length w
      → {m : ℕ} → decode_value decode_array f (w ++ tail) ≡ ok (v, length w)
      → decode_properties decode_array f tail ≡ ok (ps, m)
      → decode_properties decode_array (suc f) (write_be16 (length name) ++ (name ++ (w ++ tail)))
        ≡ ok (property name v ps, 2 + length name + length w + m)
  unfolding decode_properties
  decode_properties-property f name w tail v ps small marker pos hv hp = ground (
    arith,
    read_be16-write_be16 (length name) (name ++ (w ++ tail)),
    take-name (length name) name (w ++ tail),
    drop-name (length name) name (w ++ tail),
    length-named (length name) name (w ++ tail),
    length-append w tail,
    at_end-named name (w ++ tail) small marker,
    drop_append w tail,
    hv,
    hp,
  )

  -- Every value but an object.
  decode_value-scalar :
      (v : Value) (f : ℕ) (rest : Bytes)
      → IsWire v
      → ((ps : Properties) → v ≢ object ps)
      → decode_value decode_array (suc f) (wire v ++ rest) ≡ ok (v, length (wire v))
  unfolding decode_value decode_boolean wire IsWire
  decode_value-scalar (number bits) f rest h n =
      ground (arith, decode_number-wire bits rest h, length-write_be64 bits)
  decode_value-scalar (boolean true) f rest h n = ground arith
  decode_value-scalar (boolean false) f rest h n = ground arith
  decode_value-scalar (string contents size) f rest h n = ground (
    arith,
    decode_string-wire contents rest h.1,
    append_assoc (write_be16 size) contents rest,
    length-append (write_be16 size) contents,
    length-write_be16 size,
  )
  decode_value-scalar (object ps) f rest h n = absurd (n ps refl)
  decode_value-scalar (array xs) f rest h n = absurd h
  decode_value-scalar (date bits) f rest h n = absurd h
  decode_value-scalar null f rest h n = ground arith
  decode_value-scalar undefined f rest h n = ground arith

  decode_value-object :
      (ps : Properties) (f m : ℕ) (body : Bytes)
      → decode_properties decode_array f body ≡ ok (ps, m)
      → decode_value decode_array (suc f) (3 ∷ body) ≡ ok (object ps, suc m)
  unfolding decode_value
  decode_value-object ps f m body h = ground (arith, h)

  decode_properties-end :
      (f : ℕ) (rest : Bytes)
      → decode_properties decode_array (suc f) (0 ∷ 0 ∷ 9 ∷ rest) ≡ ok (no_properties, 3)
  unfolding decode_properties
  decode_properties-end f rest = ground arith

  mutual
    unfolding wire IsWire

    value-wire :
        (v : Value)
        → IsWire v
        → (f : ℕ) (rest : Bytes) → length (wire v) < f
        → decode_value decode_array f (wire v ++ rest) ≡ ok (v, length (wire v))
    value-wire (object ps) h zero rest k = absurd (omega arith)
    value-wire (object ps) h (suc f) rest k =
        decode_value-object ps f (length (wire_properties ps)) (wire_properties ps ++ rest)
          (properties-wire ps h f rest (omega arith))
    value-wire v h zero rest k = absurd (omega arith)
    value-wire v h (suc f) rest k = decode_value-scalar v f rest h (λ ps. cc)

    properties-wire :
        (ps : Properties)
        → AreWire ps
        → (f : ℕ) (rest : Bytes) → length (wire_properties ps) < f
        → decode_properties decode_array f (wire_properties ps ++ rest)
          ≡ ok (ps, length (wire_properties ps))
    properties-wire ps h zero rest k = absurd (omega arith)
    properties-wire no_properties h (suc f) rest k = decode_properties-end f rest
    properties-wire (property name v ps) h (suc f) rest k =
        let total : length (write_be16 (length name) ++ (name ++ (wire v ++ wire_properties ps)))
            ≡ 2 + length name + length (wire v) + length (wire_properties ps) =
          omega (
            arith,
            length-named (length name) name (wire v ++ wire_properties ps),
            length-append (wire v) (wire_properties ps),
          ) in
        simp (append_assoc, total)
          (decode_properties-property f name (wire v) (wire_properties ps ++ rest) v ps h.0
            (wire-marker v _ h.1) (wire-pos v h.1) (value-wire v h.1 f _ (omega arith))
            (properties-wire ps h.2 f rest (omega arith)))

  -- With fuel above the length of a value's AMF0 encoding, rtmp_amf_decode_value reads that value
  -- off the front of any buffer, nested objects included, and reports the length of the encoding.
  pub decode_value-wire :
      (v : Value) (f : ℕ) (rest : Bytes)
      → IsWire v
      → length (wire v) < f
      → decode_value decode_array f (wire v ++ rest) ≡ ok (v, length (wire v))
  decode_value-wire v f rest h k = value-wire v h f rest k
