-- ===== src/Commands/Process.antt =====
-- rtmp_commands.c: rtmp_command_handle and rtmp_command_process.
use rtmpcamera.Prelude.{
  ℕ, Bool, true, false, Option, none, some, List, [], ◌++◌, length, ◌==◌, if◌then◌else◌,
}
use rtmpcamera.Amf.{Bytes}
use rtmpcamera.Commands.{CommandType, Pointer, Command, create, destroy}
use rtmpcamera.Commands.Decode.{Locals, decode}

-- rtmp_command_handle: each case of the switch is empty.
unfoldable pub handle : Command → Bool
handle cmd = known cmd.type
  where
    known : CommandType → Bool
    known CommandType.connect = true
    known CommandType.create_stream = true
    known CommandType.publish = true
    known CommandType.play = true
    known CommandType.pause = true
    known CommandType.seek = true
    known CommandType.close_stream = true
    known CommandType.delete_stream = true
    known _ = false

-- What rtmp_command_process returns, and the pointers that rtmp_free got, in order.
pub record Processed : Type 0 where
  pub result : Bool
  pub freed : List Pointer

module _ (of_double : ℕ → ℕ) (locals : Locals) where
  unfoldable pub process_with : (buffer : Bytes) → Option Command → Processed
  unfolding handle destroy
  process_with buffer none = record { result = false; freed = [] }
  process_with buffer (some cmd) =
      let decoded = decode of_double locals buffer cmd in
      record {
        result = if decoded.returned then handle decoded.command else false;
        freed = decoded.freed ++ destroy decoded.command;
      }

  -- rtmp_command_process
  unfoldable pub process : (allocates : Bool) → (buffer : Bytes) → Processed
  unfolding process_with create
  process allocates buffer =
      if length buffer == 0
      then record { result = false; freed = [] }
      else process_with buffer (create allocates CommandType.custom)
