-- ===== src/Commands/Build.antt =====
-- rtmp_commands.c: the functions that fill a command in, and the two that would send one.
use rtmpcamera.Prelude.{ℕ, Bool, true, false, ◌&&◌, if◌then◌else◌, codes}
use rtmpcamera.Amf.{Bytes}
use rtmpcamera.Commands.{CommandType, Pointer, Command, is_set}

module _ (duplicate : Bytes → Pointer) where
  -- rtmp_command_connect: the two texts are only tested.
  unfoldable pub connect : (app_name tc_url : Pointer) → Command → Bool × Command
  connect app_name tc_url cmd =
      if is_set app_name && is_set tc_url
      then (
        true,
        record cmd { type = CommandType.connect; command_name = duplicate (codes "connect") },
      )
      else (false, cmd)

  -- rtmp_command_create_stream
  unfoldable pub create_stream : (transaction_id : ℕ) → Command → Bool × Command
  create_stream transaction_id cmd = (
    true,
    record cmd {
      type = CommandType.create_stream;
      command_name = duplicate (codes "createStream");
      transaction_id = transaction_id;
    },
  )

  -- rtmp_command_publish: the stream's name is only tested.
  unfoldable pub publish : (stream_name : Pointer) → Command → Bool × Command
  publish stream_name cmd =
      if is_set stream_name
      then (
        true,
        record cmd { type = CommandType.publish; command_name = duplicate (codes "publish") },
      )
      else (false, cmd)

-- rtmp_command_send_status, which sends nothing.
unfoldable pub send_status : (level code : Pointer) → Bool
send_status level code = is_set level && is_set code

-- rtmp_command_send_metadata, which sends nothing.
unfoldable pub send_metadata : (name contents : Pointer) → Bool
send_metadata name contents = is_set name && is_set contents
