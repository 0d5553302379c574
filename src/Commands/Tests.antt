-- ===== src/Commands/Tests.antt =====
-- Runs of rtmp_commands.c on concrete commands and messages, and the theorems at them.
use rtmpcamera.Prelude.{ℕ, ◌≡◌, refl, true, false, [], ◌∷◌, codes, arith}
use rtmpcamera.Amf.{Bytes}
use rtmpcamera.Amf.Decode.{decode_string, decode_number}
use rtmpcamera.Commands.{CommandType, null, to, Command}
use rtmpcamera.Commands.Encode.{next, encode}
use rtmpcamera.Commands.Decode.{Locals, decode}
use rtmpcamera.Commands.Build.{connect, create_stream, publish, send_status}
use rtmpcamera.Commands.Process.{handle, process}
use rtmpcamera.Commands.Frees.{process-frees_twice}
use rtmpcamera.Commands.Encoded.{written}
use rtmpcamera.Commands.Received.{message_of, message, decode-encode, process-encode}

abbrev blank : Command
blank = record {
  type = CommandType.custom;
  transaction_id = 0;
  command_name = null;
  command_object = null;
  optional_args = null;
  optional_args_size = 0;
}

-- A createStream command with an object and arguments.
abbrev stream_command : Command
stream_command = record {
  type = CommandType.create_stream;
  transaction_id = 4;
  command_name = to (codes "createStream");
  command_object = to [];
  optional_args = to (codes "live");
  optional_args_size = 4;
}

abbrev stale : Locals
stale = record {
  command_object = to (codes "old");
  optional_args = to (codes "stack");
  args_size = 77;
}

abbrev same : ℕ → ℕ
same n = n

abbrev room : Bytes
room =
    7 ∷ 7 ∷ 7 ∷ 7 ∷ 7 ∷ 7 ∷ 7 ∷ 7 ∷ 7 ∷ 7 ∷ 7 ∷ 7 ∷ 7 ∷ 7 ∷ 7 ∷ 7 ∷ 7 ∷ 7 ∷ 7 ∷ 7 ∷ 7 ∷ 7 ∷ 7 ∷ 7
    ∷ 7 ∷ 7 ∷ 7 ∷ 7 ∷ 7 ∷ 7 ∷ 7 ∷ 7 ∷ 7 ∷ 7 ∷ 7 ∷ 7 ∷ 7 ∷ 7 ∷ 7 ∷ 7 ∷ 7 ∷ 7 ∷ []

decode-encode_example :
    (encode same stream_command room
      ≡ next (record {
        offset = 42;
        temp_size = 9;
        buffer = written same stream_command (codes "createStream") room;
      }))
    × ((decode same stale (message same stream_command (codes "createStream") room) blank).returned
        ≡ true)
    × ((decode same stale
          (message same stream_command (codes "createStream") room)
          blank).command.command_name
        ≡ to (codes "createStream"))
    × ((decode same stale
          (message same stream_command (codes "createStream") room)
          blank).command.transaction_id
        ≡ 4)
    × ((decode same stale
          (message same stream_command (codes "createStream") room)
          blank).command.command_object
        ≡ to (codes "old"))
decode-encode_example =
    decode-encode same same stale stream_command (codes "createStream") room blank refl
      (omega arith) (omega arith) (omega arith) refl

process-encode_example :
    ((process same stale true (message_of (encode same stream_command room))).result ≡ false)
    × ((process same stale true (message_of (encode same stream_command room))).freed
        ≡ to (codes "createStream") ∷ to (codes "old") ∷ to (codes "stack") ∷ [])
process-encode_example =
    process-encode same same stale stream_command (codes "createStream") room refl (omega arith)
      (omega arith) (omega arith)

-- "ab" with the marker of a boolean behind it.
abbrev cut_short : Bytes
cut_short = 2 ∷ 0 ∷ 2 ∷ 97 ∷ 98 ∷ 1 ∷ 1 ∷ []

process-frees_twice_example :
    ((process same stale true cut_short).result ≡ false)
    × ((process same stale true cut_short).freed ≡ to (codes "ab") ∷ to (codes "ab") ∷ [])
unfolding decode_string decode_number
process-frees_twice_example = process-frees_twice same stale cut_short (codes "ab") 5 refl refl

-- The commands that the program builds are handled; their arguments are dropped.
connect-handled : handle (connect to null (to []) blank).1 ≡ false
unfolding handle connect
connect-handled = refl

create_stream-handled : handle (create_stream to 4 blank).1 ≡ true
unfolding handle create_stream
create_stream-handled = refl

publish-name : (publish to (to (codes "cam")) blank).1.command_name ≡ to (codes "publish")
unfolding publish
publish-name = refl

send_status-null : send_status (to (codes "status")) null ≡ false
unfolding send_status
send_status-null = refl
