-- ===== src/Amf/Wire.antt =====
-- The AMF0 encoding of the values that rtmp_amf_decode_value reads, as the format defines it: the
-- reference for the decoders of rtmp_amf.c.
use rtmpcamera.Prelude.{◌≤◌, ◌<◌, ◌^◌, ◌≡◌, [], ◌∷◌, ◌++◌, length, true, false}
use rtmpcamera.Amf.{
  Bytes, Value, number, boolean, string, object, null, undefined, array, date, Properties,
  no_properties, property, write_be16, write_be64, amf_max_string_len,
}

unfoldable mutual
  pub wire : Value → Bytes
  wire (number bits) = 0 ∷ write_be64 bits
  wire (boolean true) = 1 ∷ 1 ∷ []
  wire (boolean false) = 1 ∷ 0 ∷ []
  wire (string contents size) = 2 ∷ write_be16 size ++ contents
  wire (object ps) = 3 ∷ wire_properties ps
  wire null = 5 ∷ []
  wire undefined = 6 ∷ []
  wire (array xs) = []
  wire (date bits) = []

  -- each name, without a marker, before its value; then an empty name and the end marker
  pub wire_properties : Properties → Bytes
  wire_properties no_properties = 0 ∷ 0 ∷ 9 ∷ []
  wire_properties (property name v ps) =
      write_be16 (length name) ++ (name ++ (wire v ++ wire_properties ps))

-- The values that have such an encoding: 64-bit numbers, texts of at most 65535 bytes whose size
-- is right, and objects of those.
unfoldable mutual
  pub IsWire : Value → Type 0
  IsWire (number bits) = bits < 2 ^ 64
  IsWire (string contents size) = (size ≡ length contents) × (length contents ≤ amf_max_string_len)
  IsWire (object ps) = AreWire ps
  IsWire (array xs) = ⊥
  IsWire (date bits) = ⊥
  IsWire _ = Unit {0}

  pub AreWire : Properties → Type 0
  AreWire no_properties = Unit {0}
  AreWire (property name v ps) = (length name ≤ amf_max_string_len) × IsWire v × AreWire ps
