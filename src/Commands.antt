-- ===== src/Commands.antt =====
-- rtmp_commands.c and rtmp_commands.h: commands as records, and their bytes by the AMF0 codec of
-- rtmp_amf.c.
--
-- The arguments of the functions are not NULL where no `Pointer` is taken. rtmp_calloc, rtmp_free and
-- rtmp_string_duplicate are called and defined nowhere in the repository: whether the first
-- gives memory and what the last gives are arguments, and the calls of the second are listed.
-- The conversions between `uint32_t` and `double` are arguments, and so is what the local
-- variables hold that are read before anything is put in them.
pub mod Build
pub mod Encode
pub mod Decode
pub mod Process
pub mod Frees
pub mod Encoded
pub mod Received
mod Tests
use rtmpcamera.Prelude.{
  ℕ, Bool, true, false, Option, none, some, List, [], ◌∷◌, ◌++◌, if◌then◌else◌,
}
use rtmpcamera.Amf.{Bytes}

pub data CommandType : Type 0 where
  connect create_stream publish play pause seek close_stream delete_stream : CommandType
  result error ping pong custom : CommandType

-- NULL, or the bytes pointed to.
pub data Pointer : Type 0 where
  null : Pointer
  to : Bytes → Pointer

pub record Command : Type 0 where
  pub type : CommandType
  pub transaction_id : ℕ
  pub command_name : Pointer
  pub command_object : Pointer
  pub optional_args : Pointer
  pub optional_args_size : ℕ

abbrev pub is_set : Pointer → Bool
is_set null = false
is_set (to _) = true

-- rtmp_command_create: `none` where rtmp_calloc gives no memory.
unfoldable pub create : (allocates : Bool) → CommandType → Option Command
create false type = none
create true type = some (record {
  type = type;
  transaction_id = 0;
  command_name = null;
  command_object = null;
  optional_args = null;
  optional_args_size = 0;
})

abbrev pub unless_null : Pointer → List Pointer
unless_null p = if is_set p then p ∷ [] else []

-- rtmp_command_destroy: the pointers that rtmp_free gets before the command itself.
unfoldable pub destroy : Command → List Pointer
destroy cmd =
    unless_null cmd.command_name ++ unless_null cmd.command_object ++ unless_null cmd.optional_args
