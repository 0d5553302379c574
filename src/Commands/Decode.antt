-- ===== src/Commands/Decode.antt =====
-- rtmp_commands.c: rtmp_command_decode, with what its variables hold before they are set.
use rtmpcamera.Prelude.{
  ℕ, ◌+◌, Bool, true, false, Option, none, some, List, [], ◌∷◌, length, drop, ltb, if◌then◌else◌,
}
use rtmpcamera.Amf.{Bytes}
use rtmpcamera.Amf.Decode.{Result, ok, decode_string, decode_number}
use rtmpcamera.Commands.{Pointer, to, Command}

-- What `command_object`, `optional_args` and `args_size` of rtmp_command_decode hold at first.
pub record Locals : Type 0 where
  pub command_object : Pointer
  pub optional_args : Pointer
  pub args_size : ℕ

-- decode_amf_object leaves `*obj` and `*bytes_read` as they are.
unfoldable pub decode_amf_object : Pointer × ℕ → Option (Pointer × ℕ)
decode_amf_object at = some at

-- What rtmp_command_decode returns, the command, and what it passed to rtmp_free.
pub record Decoded : Type 0 where
  pub returned : Bool
  pub command : Command
  pub freed : List Pointer

abbrev pub gives_up : Command → (freed : List Pointer) → Decoded
gives_up cmd freed = record { returned = false; command = cmd; freed = freed }

-- The optional arguments, with `bytes_read` as the object left it.
unfoldable pub decode_args : Locals → (left : Bool) → (bytes_read : ℕ) → Command → Decoded
unfolding decode_amf_object
decode_args locals left bytes_read cmd =
    if left then read (decode_amf_object (locals.optional_args, bytes_read)) else done cmd
  where
    done : Command → Decoded
    done c = record { returned = true; command = c; freed = [] }

    read : Option (Pointer × ℕ) → Decoded
    read none = gives_up cmd (cmd.command_name ∷ cmd.command_object ∷ [])
    read (some (args, _)) =
        done (record cmd { optional_args = args; optional_args_size = locals.args_size })

-- The command's object and what follows, from `offset` on, `bytes_read` being that of the number.
unfoldable pub decode_object :
    Locals → (size offset bytes_read : ℕ) → Option (Pointer × ℕ) → Command → Decoded
unfolding decode_args
decode_object locals size offset bytes_read none cmd = gives_up cmd (cmd.command_name ∷ [])
decode_object locals size offset bytes_read (some (object, read)) cmd =
    decode_args locals (ltb (offset + read) size) read (record cmd { command_object = object })

module _ (of_double : ℕ → ℕ) (locals : Locals) where
  unfoldable pub decode_transaction :
      (buffer : Bytes) → (offset : ℕ) → Result (ℕ × ℕ) → Command → Decoded
  unfolding decode_object decode_amf_object
  decode_transaction buffer offset (ok (bits, read)) cmd =
      decode_object locals (length buffer) (offset + read) read
        (decode_amf_object (locals.command_object, read))
        (record cmd { transaction_id = of_double bits })
  decode_transaction buffer offset _ cmd = gives_up cmd (cmd.command_name ∷ [])

  unfoldable pub decode_name : (buffer : Bytes) → Result (Bytes × ℕ) → Command → Decoded
  unfolding decode_transaction
  decode_name buffer (ok (name, read)) cmd =
      decode_transaction buffer read (decode_number (drop read buffer))
        (record cmd { command_name = to name })
  decode_name buffer _ cmd = gives_up cmd []

  -- rtmp_command_decode
  unfoldable pub decode : (buffer : Bytes) → Command → Decoded
  unfolding decode_name
  decode buffer cmd = decode_name buffer (decode_string buffer) cmd
