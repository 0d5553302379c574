-- ===== src/Commands/Encode.antt =====
-- rtmp_commands.c: rtmp_command_encode, on the caller's buffer.
use rtmpcamera.Prelude.{
  ℕ, ◌+◌, Bool, ◌&&◌, Option, none, some, ◌++◌, length, take, drop, ltb, if◌then◌else◌,
}
use rtmpcamera.Amf.{Bytes}
use rtmpcamera.Amf.Encode.{encode_string, encode_number}
use rtmpcamera.Commands.{Pointer, null, to, Command, is_set}

-- `offset`, `temp_size` and the caller's buffer while rtmp_command_encode runs.
pub record Position : Type 0 where
  pub offset : ℕ
  pub temp_size : ℕ
  pub buffer : Bytes

-- Going on, a return of 0, or a write past the buffer's end.
pub data Step : Type 0 where
  next : Position → Step
  refused : (buffer : Bytes) → Step
  out_of_bounds : Step

infixl 5 ◌>>=◌
abbrev pub ◌>>=◌ : Step → (Position → Step) → Step
next p >>= f = f p
refused buffer >>= f = refused buffer
out_of_bounds >>= f = out_of_bounds

-- One call of an encoder at `buffer + offset` and the step behind what it wrote.
abbrev pub put : Option Bytes → Position → Step
put none p = refused p.buffer
put (some bs) p =
    let end = p.offset + length bs in
    if ltb (length p.buffer) end
    then out_of_bounds
    else next (record {
      offset = end;
      temp_size = length bs;
      buffer = take p.offset p.buffer ++ (bs ++ drop end p.buffer);
    })

-- encode_amf_object writes nothing, nor `*size`: that is its result.
unfoldable pub encode_amf_object : Pointer → (size : ℕ) → Option ℕ
encode_amf_object null size = none
encode_amf_object (to _) size = some size

-- rtmp_amf_encode_string on a pointer.
abbrev pub encode_text : Pointer → Option Bytes
encode_text null = none
encode_text (to str) = encode_string str

abbrev pub step_over : Option ℕ → Position → Step
step_over none p = refused p.buffer
step_over (some size) p = next (record p { offset = p.offset + size; temp_size = size })

-- One of the two objects, if the command has it.
unfoldable pub put_object : (present : Bool) → Pointer → Position → Step
unfolding encode_amf_object
put_object present object p =
    if present then step_over (encode_amf_object object p.temp_size) p else next p

-- rtmp_command_encode: at `next` it returned 1 with `*size` the offset.
unfoldable pub encode : (double_of : ℕ → ℕ) → Command → (buffer : Bytes) → Step
unfolding put_object
encode double_of cmd buffer = do
  p ← put (encode_text cmd.command_name) (record { offset = 0; temp_size = 0; buffer = buffer })
  p ← put (encode_number (double_of cmd.transaction_id)) p
  p ← put_object (is_set cmd.command_object) cmd.command_object p
  put_object (is_set cmd.optional_args && ltb 0 cmd.optional_args_size) cmd.optional_args p
