-- ===== src/Commands/Received.antt =====
-- rtmp_commands.c: a command that rtmp_command_encode wrote, as rtmp_command_decode and
-- rtmp_command_process receive it.
use rtmpcamera.Prelude.{
  ℕ, ◌+◌, ◌≤◌, ◌<◌, ◌^◌, ◌≡◌, refl, ◌∙◌, Bool, true, false, ◌&&◌, [], ◌∷◌, ◌++◌, length, take, drop,
  ltb, if◌then◌else◌, arith, Bool-cases, inl, inr, length-append, length-take, length-drop,
  append_assoc, drop-past, take-past,
}
use rtmpcamera.Amf.{Bytes, amf_max_string_len, write_be16}
use rtmpcamera.Amf.Decode.{ok, decode_string, decode_number}
use rtmpcamera.Amf.Layout.{decode_string-wire, decode_number-wire}
use rtmpcamera.Commands.{to, Command, is_set, unless_null}
use rtmpcamera.Commands.Encode.{Step, next, refused, out_of_bounds, encode}
use rtmpcamera.Commands.Decode.{
  Locals, decode, decode_name, decode_transaction, decode_object, decode_args, decode_amf_object,
}
use rtmpcamera.Commands.Process.{process}
use rtmpcamera.Commands.Frees.{process-frees_locals}
use rtmpcamera.Commands.Encoded.{
  name_bytes, number_bytes, written, encoded_size, encode_lem, has_args, object_size,
  length-name_bytes, length-number_bytes,
}

module _ (name rest : Bytes) (bits : ℕ) (h : length name ≤ amf_max_string_len) where
  decode_string-head :
      decode_string (name_bytes name ++ (number_bytes bits ++ rest)) ≡ ok (name, 3 + length name)
  decode_string-head =
      rw (append_assoc (write_be16 (length name)) name (number_bytes bits ++ rest))
        (decode_string-wire name (number_bytes bits ++ rest) h)

  drop-head :
      drop (3 + length name) (name_bytes name ++ (number_bytes bits ++ rest))
      ≡ number_bytes bits ++ rest
  unfolding write_be16
  drop-head =
      drop-past (3 + length name) 0 (name_bytes name) (number_bytes bits ++ rest) (omega arith)

  decode_number-head :
      bits < 2 ^ 64
      → decode_number (drop (3 + length name) (name_bytes name ++ (number_bytes bits ++ rest)))
        ≡ ok (bits, 9)
  decode_number-head k = rw drop-head (decode_number-wire bits rest k)

-- Where name and number decode, the command has them, and the object that the local held.
decode_lem :
    (of_double : ℕ → ℕ) (locals : Locals) (cmd : Command) (buffer name : Bytes) (n bits read : ℕ)
    → decode_string buffer ≡ ok (name, n)
    → decode_number (drop n buffer) ≡ ok (bits, read)
    → ((decode of_double locals buffer cmd).returned ≡ true)
      × ((decode of_double locals buffer cmd).command.command_name ≡ to name)
      × ((decode of_double locals buffer cmd).command.transaction_id ≡ of_double bits)
      × ((decode of_double locals buffer cmd).command.command_object ≡ locals.command_object)
unfolding decode decode_name decode_transaction decode_object decode_args decode_amf_object
decode_lem of_double locals cmd buffer name n bits read e f =
    elim (Bool-cases (ltb (n + read + read) (length buffer))) [
      | inl l ↦ rw (e, f, l) (refl, refl, refl, refl)
      | inr g ↦ rw (e, f, g) (refl, refl, refl, refl)
    ]

module _ (double_of : ℕ → ℕ) (cmd : Command) (name buffer : Bytes) where
  -- How far the objects move `offset`, and the bytes stepped over.
  abbrev objects : ℕ
  objects = object_size (is_set cmd.command_object) + object_size (has_args cmd)

  abbrev behind : Bytes
  behind = take objects (drop (12 + length name) buffer)

  -- The message: as many bytes of the buffer as `*size` says.
  abbrev pub message : Bytes
  message = take (encoded_size cmd name) (written double_of cmd name buffer)

  message_lem : message ≡ name_bytes name ++ (number_bytes (double_of cmd.transaction_id) ++ behind)
  message_lem =
      rw
        (
          take-past (encoded_size cmd name) (9 + objects) (name_bytes name)
              (number_bytes bits ++ drop (12 + length name) buffer)
              (omega (arith, length-name_bytes name)),
          take-past (9 + objects) objects (number_bytes bits) (drop (12 + length name) buffer)
              (omega (arith, length-number_bytes bits)),
        )
        refl
    where
      bits : ℕ
      bits = double_of cmd.transaction_id

  message-name :
      length name ≤ amf_max_string_len → decode_string message ≡ ok (name, 3 + length name)
  message-name h = rw message_lem (decode_string-head name behind (double_of cmd.transaction_id) h)

  message-number :
      length name ≤ amf_max_string_len
      → double_of cmd.transaction_id < 2 ^ 64
      → decode_number (drop (3 + length name) message) ≡ ok (double_of cmd.transaction_id, 9)
  message-number h b =
      rw message_lem (decode_number-head name behind (double_of cmd.transaction_id) h b)

  length-message : encoded_size cmd name ≤ length buffer → length message ≡ encoded_size cmd name
  length-message k = rw message_lem (
      omega (
        arith,
        length-name_bytes name,
        length-number_bytes (double_of cmd.transaction_id),
        length-append (name_bytes name) (number_bytes (double_of cmd.transaction_id) ++ behind),
        length-append (number_bytes (double_of cmd.transaction_id)) behind,
        length-take objects (drop (12 + length name) buffer),
        length-drop (12 + length name) buffer,
      ))

  -- The arguments are read only behind an object that was encoded too.
  args_left :
      encoded_size cmd name ≤ length buffer
      → ltb (3 + length name + 9 + 9) (length message) ≡ (is_set cmd.command_object && has_args cmd)
  args_left k =
      rw (length-message k) (left (length name) (is_set cmd.command_object) (has_args cmd))
    where
      left :
          (n : ℕ) (o a : Bool)
          → ltb (3 + n + 9 + 9) (12 + n + object_size o + object_size a) ≡ (o && a)
      left n o a = ground arith

-- What rtmp_command_encode gives a caller when it returns 1: the first `*size` bytes of the buffer.
abbrev pub message_of : Step → Bytes
message_of (next p) = take p.offset p.buffer
message_of (refused buffer) = []
message_of out_of_bounds = []

module _ (double_of of_double : ℕ → ℕ) (locals : Locals) (cmd : Command) (name buffer : Bytes) where
  abbrev received : Bytes
  received = message double_of cmd name buffer

  -- A command with a name of at most 65535 bytes, in a buffer with room for its name and number, and an
  -- id that survives the way to `double` and back: rtmp_command_encode returns 1, with 9 bytes
  -- for each object that the command has and none of them written, and rtmp_command_decode gives
  -- name and id back, with the object that its local variable held before.
  pub decode-encode :
      (blank : Command)
      → cmd.command_name ≡ to name
      → length name ≤ amf_max_string_len
      → 12 + length name ≤ length buffer
      → double_of cmd.transaction_id < 2 ^ 64
      → of_double (double_of cmd.transaction_id) ≡ cmd.transaction_id
      → (encode double_of cmd buffer
          ≡ next (record {
            offset = encoded_size cmd name;
            temp_size = 9;
            buffer = written double_of cmd name buffer;
          }))
        × ((decode of_double locals received blank).returned ≡ true)
        × ((decode of_double locals received blank).command.command_name ≡ to name)
        × ((decode of_double locals received blank).command.transaction_id ≡ cmd.transaction_id)
        × ((decode of_double locals received blank).command.command_object ≡ locals.command_object)
  decode-encode blank e h k b inv =
      let (returned, named, number, object) =
        decode_lem of_double locals blank received name (3 + length name)
          (double_of cmd.transaction_id) 9 (message-name double_of cmd name buffer h)
          (message-number double_of cmd name buffer h b) in
      (encode_lem double_of cmd name buffer e h k, returned, named, number ∙ inv, object)

  -- A command with a name of at most 65535 bytes, and a buffer with room for all of `*size`: on what
  -- rtmp_command_encode leaves in the buffer's first `*size` bytes, rtmp_command_process returns 0,
  -- whatever command it is, and passes to rtmp_free the name and then what its locals held
  -- before: the object's, and the arguments' if the command had both objects, each unless it is
  -- NULL.
  pub process-encode :
      cmd.command_name ≡ to name
      → length name ≤ amf_max_string_len
      → encoded_size cmd name ≤ length buffer
      → double_of cmd.transaction_id < 2 ^ 64
      → let sent = message_of (encode double_of cmd buffer) in
        ((process of_double locals true sent).result ≡ false)
        × ((process of_double locals true sent).freed
            ≡ to name ∷ unless_null locals.command_object
              ++ (if is_set cmd.command_object && has_args cmd
                  then unless_null locals.optional_args
                  else []))
  process-encode e h k b =
      rw
        (
          encode_lem double_of cmd name buffer e h (omega arith),
          ← args_left double_of cmd name buffer k,
        )
        (process-frees_locals of_double locals received name (3 + length name)
          (double_of cmd.transaction_id) 9 (message-name double_of cmd name buffer h)
          (message-number double_of cmd name buffer h b))
