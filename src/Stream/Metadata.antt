-- ===== src/Stream/Metadata.antt =====
-- rtmp_stream.c: the metadata that a stream sends about itself.
--
-- amf_object_create, amf_object_add_* and amf_encode_metadata are called and in no file of the
-- repository: an object is the list of what was added to it, and what the first and the last of
-- them give, with what rtmp_send_packet returns, are the fields of a `Link`.
use rtmpcamera.Prelude.{
  ℕ, Bool, false, Option, none, some, List, [], ◌∷◌, ◌++◌, length, if◌then◌else◌, codes,
}
use rtmpcamera.Utils.{Packet}
use rtmpcamera.Stream.{Bytes, Stream}

-- A number is a quotient, which the program rounds to `double`.
pub data Property : Type 0 where
  number : (name : Bytes) → (dividend divisor : ℕ) → Property
  string : (name text : Bytes) → Property
  bool : (name : Bytes) → Bool → Property

-- What a stream relies on: whether amf_object_create gives an object, what amf_encode_metadata gives,
-- and what rtmp_send_packet returns.
pub record Link : Type 0 where
  pub creates_object : Bool
  pub encode_metadata : (type : Bytes) → List Property → Option Bytes
  pub send_packet : Packet → Bool

abbrev whole : (name : Bytes) → ℕ → Property
whole name n = number name n 1

-- The calls of amf_object_add_* in send_metadata.
unfoldable pub properties : Stream → List Property
properties s =
    whole (codes "width") s.config.width
      ∷ whole (codes "height") s.config.height
      ∷ whole (codes "videocodecid") s.config.video_codec
      ∷ number (codes "videodatarate") s.config.video_bitrate 1024
      ∷ whole (codes "framerate") s.config.frame_rate
      ∷ audio
    ++ (string (codes "encoder") (codes "rtmp_camera/1.0")
        ∷ whole (codes "filesize") 0
        ∷ bool (codes "hasAudio") s.config.enable_audio
        ∷ bool (codes "hasVideo") s.config.enable_video
        ∷ [])
  where
    audio : List Property
    audio =
        if s.config.enable_audio
        then whole (codes "audiocodecid") s.config.audio_codec
          ∷ number (codes "audiodatarate") s.config.audio_bitrate 1024
          ∷ whole (codes "audiochannels") 2
          ∷ []
        else []

-- A packet of the stream, handed to rtmp_send_packet.
abbrev pub packet_of : (type timestamp : ℕ) → Bytes → Stream → Packet
packet_of type timestamp bytes s = record {
  contents = some bytes;
  size = length bytes;
  timestamp = timestamp;
  type = type;
  stream_id = s.stream_id;
}

abbrev pub hand_over : Packet → Stream → Stream
hand_over packet s = record s { packets = s.packets ++ packet ∷ [] }

module _ (link : Link) where
  abbrev send_encoded : Option Bytes → Stream → Bool × Stream
  send_encoded none s = (false, s)
  send_encoded (some bytes) s =
      let packet = packet_of 18 0 bytes s in (link.send_packet packet, hand_over packet s)

  -- rtmp_stream_send_metadata
  unfoldable pub send_metadata : (type : Bytes) → List Property → Stream → Bool × Stream
  send_metadata type metadata = send_encoded (link.encode_metadata type metadata)

  -- The static send_metadata.
  unfoldable pub announce : Stream → Bool × Stream
  unfolding properties send_metadata
  announce s =
      if link.creates_object
      then send_metadata (codes "@setDataFrame") (properties s) s
      else (false, s)
