-- ===== src/Connection/Types.antt =====
-- rtmp_core.h: the types of messages.
use rtmpcamera.Prelude.{ℕ}

-- `rtmp_message_type_t`
pub data MessageType : Type 0 where
  chunk_size abort ack user_control window_ack_size set_peer_bw : MessageType
  audio video : MessageType
  data_amf3 shared_obj_amf3 command_amf3 : MessageType
  data_amf0 shared_obj_amf0 command_amf0 : MessageType
  aggregate : MessageType

-- The number of a type in the enumeration.
abbrev pub type_number : MessageType → ℕ
type_number chunk_size = 1
type_number abort = 2
type_number ack = 3
type_number user_control = 4
type_number window_ack_size = 5
type_number set_peer_bw = 6
type_number audio = 8
type_number video = 9
type_number data_amf3 = 15
type_number shared_obj_amf3 = 16
type_number command_amf3 = 17
type_number data_amf0 = 18
type_number shared_obj_amf0 = 19
type_number command_amf0 = 20
type_number aggregate = 22
