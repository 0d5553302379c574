-- ===== src/Server/Messages.antt =====
-- rtmp_server_integration.c: rtmp_connection_handle_message, its handlers, and the handshake.
--
-- The AMF functions that this file calls are in no file of the repository: a `Library` says what they
-- give.
use rtmpcamera.Prelude.{
  ℕ, ◌+◌, ◌/◌, ◌%◌, Bool, true, false, not, Option, none, some, List, [], ◌∷◌, ◌++◌, if◌then◌else◌,
  ◌==◌, codes, take, drop, length, u64, be32,
}
use rtmpcamera.Server.{
  Bytes, MessageId, Chunk, Metadata, Frame, Connection, ConnectionState, buffer_size,
}

-- `rtmp_amf_data_t` as the handlers read it. Of a number they read the conversion to `uint32_t`,
-- `value`, and the one of the number times 1024, `scaled`.
pub data AmfData : Type 0 where
  string_data : Bytes → AmfData
  number_data : (value scaled : ℕ) → AmfData
  other_data : AmfData

-- What rtmp_amf_get_prop gives for each name.
abbrev pub Amf : Type 0
Amf = Bytes → Option AmfData

pub record Library : Type 0 where
  pub decode : Bytes → Option Amf
  pub connect_response : Bytes
  pub create_stream_response : Bytes
  pub play_response : Bytes
  pub publish_response : Bytes

-- `strncpy(name, text, 127)` into zeroed memory, for the text of a string property.
abbrev pub copy_name : Option AmfData → Bytes → Bytes
copy_name (some (string_data text)) name = take 127 text
copy_name _ name = name

abbrev pub value_or : Option AmfData → ℕ → ℕ
value_or (some (number_data value scaled)) n = value
value_or _ n = n

abbrev pub scaled_or : Option AmfData → ℕ → ℕ
scaled_or (some (number_data value scaled)) n = scaled
scaled_or _ n = n

abbrev pub send_chunks : List Chunk → Connection → Connection
send_chunks chunks c = record c { sent = c.sent ++ chunks }

abbrev pub response : MessageId → (stream_id : ℕ) → Bytes → Chunk
response type stream_id bytes = record {
  msg_type_id = type;
  msg_stream_id = stream_id;
  timestamp = 0;
  msg_data = bytes;
}

abbrev pub stream_begin : Bytes
stream_begin = 0 ∷ 0 ∷ 0 ∷ 0 ∷ 0 ∷ 0 ∷ []

-- rtmp_handle_connect
unfoldable pub handle_connect : Library → Chunk → Connection → Connection
handle_connect lib chunk c = elim (lib.decode chunk.msg_data) [
  | none ↦ c
  | some amf ↦
      let replies =
        response MessageId.window_ack_size 0 (be32 buffer_size)
        ∷ response MessageId.set_peer_bw 0 (be32 buffer_size ++ 2 ∷ [])
        ∷ response MessageId.user_control 0 stream_begin
        ∷ response MessageId.command 0 lib.connect_response
        ∷ [] in
      let named = record c.metadata {
        app_name = copy_name (amf (codes "app")) c.metadata.app_name;
      } in
      send_chunks replies (record c { metadata = named; state = ConnectionState.connect })
]

-- rtmp_handle_create_stream
unfoldable pub handle_create_stream : Library → Chunk → Connection → Connection
handle_create_stream lib chunk c = elim (lib.decode chunk.msg_data) [
  | none ↦ c
  | some amf ↦
      send_chunks (response MessageId.command chunk.msg_stream_id lib.create_stream_response ∷ [])
        (record c { state = ConnectionState.create_stream })
]

-- rtmp_handle_play
unfoldable pub handle_play : Library → Chunk → Connection → Connection
handle_play lib chunk c = elim (lib.decode chunk.msg_data) [
  | none ↦ c
  | some amf ↦
      let named = record c.metadata {
        stream_name = copy_name (amf (codes "streamName")) c.metadata.stream_name;
      } in
      let replies =
        response MessageId.user_control chunk.msg_stream_id stream_begin
        ∷ response MessageId.command chunk.msg_stream_id lib.play_response
        ∷ [] in
      send_chunks replies
        (record c { metadata = named; state = ConnectionState.play; is_publisher = false })
]

-- rtmp_handle_publish
unfoldable pub handle_publish : Library → (now : ℕ) → Chunk → Connection → Connection
handle_publish lib now chunk c = elim (lib.decode chunk.msg_data) [
  | none ↦ c
  | some amf ↦
      let named = record c.metadata {
        stream_name = copy_name (amf (codes "publishName")) c.metadata.stream_name;
        publish_time = now;
      } in
      send_chunks (response MessageId.command chunk.msg_stream_id lib.publish_response ∷ [])
        (record c { metadata = named; state = ConnectionState.publishing; is_publisher = true })
]

-- rtmp_handle_video
unfoldable pub handle_video : (has_callback : Bool) → Chunk → Connection → Connection
handle_video has_callback chunk c = handle_bytes chunk.msg_data
  where
    handle_bytes : Bytes → Connection
    handle_bytes [] = c
    handle_bytes (b ∷ bs) =
        let frame : Frame = record {
          bytes = b ∷ bs;
          timestamp = chunk.timestamp;
          is_keyframe = b / 16 % 16 == 1;
        } in
        if not c.is_publisher then c else record c {
          metadata = record c.metadata {
            has_video = true;
            bytes_in = u64 (c.metadata.bytes_in + length (b ∷ bs));
          };
          frames = if has_callback then c.frames ++ frame ∷ [] else c.frames;
        }

-- rtmp_handle_audio
unfoldable pub handle_audio : Chunk → Connection → Connection
handle_audio chunk c = handle_bytes chunk.msg_data
  where
    handle_bytes : Bytes → Connection
    handle_bytes [] = c
    handle_bytes (b ∷ bs) = if not c.is_publisher then c else record c {
      metadata = record c.metadata {
        has_audio = true;
        bytes_in = u64 (c.metadata.bytes_in + length (b ∷ bs));
        audio_sample_rate = b / 4 % 4;
        audio_channels = b % 2 + 1;
      };
    }

-- rtmp_handle_metadata. The callback gets the connection's metadata.
unfoldable pub handle_metadata : Library → Chunk → Connection → Connection
handle_metadata lib chunk c = handle_bytes chunk.msg_data
  where
    read : Amf → Metadata → Metadata
    read amf m = record m {
      width = value_or (amf (codes "width")) m.width;
      height = value_or (amf (codes "height")) m.height;
      frame_rate = value_or (amf (codes "framerate")) m.frame_rate;
      video_bitrate = scaled_or (amf (codes "videodatarate")) m.video_bitrate;
      audio_bitrate = scaled_or (amf (codes "audiodatarate")) m.audio_bitrate;
    }

    handle_bytes : Bytes → Connection
    handle_bytes [] = c
    handle_bytes (b ∷ bs) = if not c.is_publisher then c else elim (lib.decode (b ∷ bs)) [
      | none ↦ c
      | some amf ↦ record c { metadata = read amf c.metadata }
    ]

-- rtmp_connection_handle_message
unfoldable pub handle_message :
    Library → (has_callback : Bool) → (now : ℕ) → Chunk → Connection → Connection
unfolding handle_connect handle_create_stream handle_play handle_publish handle_video handle_audio
    handle_metadata
handle_message lib has_callback now chunk c = elim chunk.msg_type_id [
  | MessageId.connect ↦ handle_connect lib chunk c
  | MessageId.create_stream ↦ handle_create_stream lib chunk c
  | MessageId.play ↦ handle_play lib chunk c
  | MessageId.publish ↦ handle_publish lib now chunk c
  | MessageId.video ↦ handle_video has_callback chunk c
  | MessageId.audio ↦ handle_audio chunk c
  | MessageId.data_message ↦ handle_metadata lib chunk c
  | MessageId.metadata ↦ handle_metadata lib chunk c
  | _ ↦ c
]

-- rtmp_handshake_process: `c0c1` and `c2` are what the two receives give, `clock` the four bytes of
-- the time, `random` 1528 random bytes. The result, and what was sent.
unfoldable pub process_handshake :
    (c0c1 c2 clock random : Bytes) → (sends : Bool) → Bool × List Bytes
process_handshake c0c1 c2 clock random sends =
    let s0s1s2 = 3 ∷ clock ++ (0 ∷ 0 ∷ 0 ∷ 0 ∷ random ++ drop 1 c0c1) in
    if not (length c0c1 == 1537)
    then (false, [])
    else if not (starts_with_version c0c1)
    then (false, [])
    else if not sends
    then (false, s0s1s2 ∷ [])
    else if not (length c2 == 1536)
    then (false, s0s1s2 ∷ [])
    else (true, s0s1s2 ∷ [])
  where
    starts_with_version : Bytes → Bool
    starts_with_version [] = false
    starts_with_version (b ∷ bs) = b == 3
