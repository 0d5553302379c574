-- ===== src/Commands/Encoded.antt =====
-- rtmp_commands.c: what rtmp_command_encode writes, and what the receiver reads of it.
use rtmpcamera.Prelude.{
  ℕ, ◌+◌, ◌≤◌, ◌≡◌, refl, sym, ◌∙◌, Bool, true, false, ◌&&◌, some, [], ◌∷◌, ◌++◌, length, drop, ltb,
  if◌then◌else◌, arith, length-append, length-drop, take_append, drop-past, drop-drop,
}
use rtmpcamera.Amf.{Bytes, amf_max_string_len, write_be16, write_be64}
use rtmpcamera.Amf.Encode.{encode_string, encode_number}
use rtmpcamera.Commands.{Pointer, to, null, Command, is_set}
use rtmpcamera.Commands.Encode.{
  Position, Step, next, ◌>>=◌, put, put_object, encode_amf_object, encode,
}

-- A call with room for its bytes behind those written so far.
put_lem :
    (written bytes memory : Bytes) (offset size : ℕ)
    → offset ≡ length written
    → length bytes ≤ length memory
    → put (some bytes) (record { offset = offset; temp_size = size; buffer = written ++ memory })
      ≡ next (record {
        offset = offset + length bytes;
        temp_size = length bytes;
        buffer = written ++ (bytes ++ drop (length bytes) memory);
      })
put_lem written bytes memory offset size e h =
    rw
      (
        e,
        take_append written memory,
        drop-past (length written + length bytes) (length bytes) written memory refl,
        fits,
      )
      refl
  where
    fits : ltb (length (written ++ memory)) (length written + length bytes) ≡ false
    fits = ground (arith, length-append written memory)

abbrev start : (buffer : Bytes) → Position
start buffer = record { offset = 0; temp_size = 0; buffer = buffer }

zero_add : (n : ℕ) → 0 + n ≡ n
zero_add n = omega arith

-- Two calls, one behind the other, from the start of a buffer that has room for both.
put_two :
    (first second buffer : Bytes) (total size : ℕ) (after : Position → Step)
    → length first + length second ≡ total
    → length second ≡ size
    → total ≤ length buffer
    → (put (some first) (start buffer) >>= λ p. put (some second) p >>= after)
      ≡ after (record {
        offset = total;
        temp_size = size;
        buffer = first ++ (second ++ drop total buffer);
      })
put_two first second buffer total size after e f h =
    rw
      (
        put_lem [] first buffer 0 0 refl (omega arith),
        put_lem first second (drop (length first) buffer) (0 + length first) (length first)
            (omega arith) (omega (arith, length-drop (length first) buffer)),
        drop-drop (length first) (length second) total buffer (sym e),
      )
      (rw (zero_add (length first), e, f) refl)

-- The size of an object that is present: nothing of it is written, and `offset` moves as it did before.
abbrev pub object_size : (present : Bool) → ℕ
object_size present = if present then 9 else 0

put_object_lem :
    (object : Pointer) (present : Bool) (offset : ℕ) (buffer : Bytes)
    → (is_set object && present) ≡ present
    → put_object present object (record { offset = offset; temp_size = 9; buffer = buffer })
      ≡ next (record { offset = offset + object_size present; temp_size = 9; buffer = buffer })
unfolding put_object encode_amf_object
put_object_lem object false offset buffer e = ground arith
put_object_lem null true offset buffer e = absurd (ground (arith, e))
put_object_lem (to _) true offset buffer e = refl

-- A command's name and number, as bytes.
abbrev pub name_bytes : (name : Bytes) → Bytes
name_bytes name = 2 ∷ write_be16 (length name) ++ name

abbrev pub number_bytes : (bits : ℕ) → Bytes
number_bytes bits = 0 ∷ write_be64 bits

abbrev pub has_args : Command → Bool
has_args cmd = is_set cmd.optional_args && ltb 0 cmd.optional_args_size

abbrev pub encoded_size : Command → (name : Bytes) → ℕ
encoded_size cmd name =
    12 + length name + object_size (is_set cmd.command_object) + object_size (has_args cmd)

pub length-name_bytes : (name : Bytes) → length (name_bytes name) ≡ 3 + length name
unfolding write_be16
length-name_bytes name = omega arith

pub length-number_bytes : (bits : ℕ) → length (number_bytes bits) ≡ 9
unfolding write_be64
length-number_bytes bits = refl

length-head :
    (name : Bytes) (bits : ℕ)
    → length (name_bytes name) + length (number_bytes bits) ≡ 12 + length name
length-head name bits = omega (arith, length-name_bytes name, length-number_bytes bits)

&&_refl : (b : Bool) → (b && b) ≡ b
&&_refl b = ground arith

&&_absorb : (a b : Bool) → (a && (a && b)) ≡ (a && b)
&&_absorb a b = ground arith

module _ (double_of : ℕ → ℕ) (cmd : Command) (name buffer : Bytes) where
  -- What stands in the buffer once the number is written.
  abbrev pub written : Bytes
  written =
      name_bytes name
      ++ (number_bytes (double_of cmd.transaction_id) ++ drop (12 + length name) buffer)

  put_objects :
      (put_object
          (is_set cmd.command_object)
          cmd.command_object
          (record { offset = 12 + length name; temp_size = 9; buffer = written })
        >>= put_object (has_args cmd) cmd.optional_args)
      ≡ next (record { offset = encoded_size cmd name; temp_size = 9; buffer = written })
  put_objects =
      rw
        (
          put_object_lem cmd.command_object (is_set cmd.command_object) (12 + length name) written
              (&&_refl (is_set cmd.command_object)),
          put_object_lem cmd.optional_args (has_args cmd)
              (12 + length name + object_size (is_set cmd.command_object)) written
              (&&_absorb (is_set cmd.optional_args) (ltb 0 cmd.optional_args_size)),
        )
        refl

  pub encode_lem :
      cmd.command_name ≡ to name
      → length name ≤ amf_max_string_len
      → 12 + length name ≤ length buffer
      → encode double_of cmd buffer
        ≡ next (record { offset = encoded_size cmd name; temp_size = 9; buffer = written })
  unfolding encode encode_string encode_number
  encode_lem e h k =
      rw (e, short)
        (put_two (name_bytes name) (number_bytes bits) buffer (12 + length name) 9 _
            (length-head name bits) (length-number_bytes bits) k
          ∙ put_objects)
    where
      bits : ℕ
      bits = double_of cmd.transaction_id

      short : ltb amf_max_string_len (length name) ≡ false
      short = ground arith
