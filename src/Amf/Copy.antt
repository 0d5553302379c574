-- ===== src/Amf/Copy.antt =====
-- rtmp_amf.c: rtmp_amf_value_copy.
use rtmpcamera.Prelude.{◌==◌, [], ◌∷◌, if◌then◌else◌}
use rtmpcamera.Amf.{
  Bytes, Value, number, boolean, string, object, null, undefined, array, date, Properties,
  no_properties, property, no_elements,
}

-- the bytes that `strdup` copies: those before the first NUL
unfoldable pub until_nul : Bytes → Bytes
until_nul [] = []
until_nul (c ∷ cs) = if c == 0 then [] else c ∷ until_nul cs

-- An array keeps only its type: the copy's elements stay as calloc left them.
unfoldable mutual
  pub value_copy : Value → Value
  value_copy (number bits) = number bits
  value_copy (boolean b) = boolean b
  value_copy (string contents size) = string (until_nul contents) size
  value_copy (object ps) = object (copy_properties ps)
  value_copy null = null
  value_copy undefined = undefined
  value_copy (array xs) = array no_elements
  value_copy (date bits) = date bits

  pub copy_properties : Properties → Properties
  copy_properties no_properties = no_properties
  copy_properties (property name v ps) =
      property (until_nul name) (value_copy v) (copy_properties ps)
