-- ===== src/Amf.antt =====
-- rtmp_amf.c and rtmp_amf.h: AMF0 values, and the bytes of numbers in network order.
--
-- A buffer with its size is the list of its bytes, each below 256. A `double` is its 64-bit
-- pattern. `|` of shifted bytes joins disjoint bits, and is written as a sum; `(x >> k) & 0xFF`
-- is `x / 2 ^ k % 256`. Allocations succeed, and freed memory is not modelled.
pub mod Encode
pub mod Decode
pub mod Copy
pub mod Wire
pub mod Layout
pub mod RoundTrip
pub mod Total
pub mod Emits
pub mod Commands
pub mod LongName
pub mod Copied
pub mod Free
mod Tests
use rtmpcamera.Prelude.{ℕ, ◌+◌, ◌*◌, ◌/◌, ◌^◌, Bool, List, [], ◌∷◌, get_or, u8}

abbrev pub Bytes : Type 0
Bytes = List ℕ

-- `rtmp_amf_value_t`, a constructor for each type that the code builds. A string keeps the bytes
-- that `data` points at, up to its terminating NUL, and `size`.
mutual
  pub data Value : Type 0 where
    number : (bits : ℕ) → Value
    boolean : Bool → Value
    string : (contents : List ℕ) (size : ℕ) → Value
    object : Properties → Value
    null undefined : Value
    array : Elements → Value
    date : (bits : ℕ) → Value

  -- `names[i]` and `properties[i]`, in order
  pub data Properties : Type 0 where
    no_properties : Properties
    property : (name : List ℕ) → Value → Properties → Properties

  pub data Elements : Type 0 where
    no_elements : Elements
    element : Value → Elements → Elements

-- The type markers.
abbrev pub amf0_number : ℕ
amf0_number = 0

abbrev pub amf0_boolean : ℕ
amf0_boolean = 1

abbrev pub amf0_string : ℕ
amf0_string = 2

abbrev pub amf0_object : ℕ
amf0_object = 3

abbrev pub amf0_null : ℕ
amf0_null = 5

abbrev pub amf0_undefined : ℕ
amf0_undefined = 6

abbrev pub amf0_object_end : ℕ
amf0_object_end = 9

abbrev pub amf0_strict_array : ℕ
amf0_strict_array = 10

abbrev pub amf_max_string_len : ℕ
amf_max_string_len = 65535

abbrev pub amf_number_size : ℕ
amf_number_size = 9

abbrev pub amf_boolean_size : ℕ
amf_boolean_size = 2

unfoldable pub write_be16 : ℕ → Bytes
write_be16 value = u8 (value / 256) ∷ u8 value ∷ []

unfoldable pub write_be64 : ℕ → Bytes
write_be64 value =
    u8 (value / 2 ^ 56)
    ∷ u8 (value / 2 ^ 48)
    ∷ u8 (value / 2 ^ 40)
    ∷ u8 (value / 2 ^ 32)
    ∷ u8 (value / 2 ^ 24)
    ∷ u8 (value / 2 ^ 16)
    ∷ u8 (value / 2 ^ 8)
    ∷ u8 value
    ∷ []

unfoldable pub read_be16 : Bytes → ℕ
read_be16 buffer = get_or buffer 0 0 * 256 + get_or buffer 1 0

unfoldable pub read_be64 : Bytes → ℕ
read_be64 buffer =
    get_or buffer 0 0 * 2 ^ 56
    + get_or buffer 1 0 * 2 ^ 48
    + get_or buffer 2 0 * 2 ^ 40
    + get_or buffer 3 0 * 2 ^ 32
    + get_or buffer 4 0 * 2 ^ 24
    + get_or buffer 5 0 * 2 ^ 16
    + get_or buffer 6 0 * 2 ^ 8
    + get_or buffer 7 0
