-- ===== src/Stream.antt =====
-- rtmp_stream.c and rtmp_stream.h: a stream over a connection of rtmp_protocol.c, its state, its
-- configuration and its buffers. The files below this one have its operations.
--
-- The numbers are 32 bits wide. The stream keeps what it asks of its connection: the packets
-- that it hands to rtmp_send_packet and the calls of rtmp_disconnect. What the functions of the
-- connection return, and the clock, are arguments.
pub mod Url
pub mod Metadata
pub mod Settings
pub mod Control
pub mod Media
pub mod Adaptive
pub mod Fixed
pub mod Unchanged
mod Tests
use rtmpcamera.Prelude.{
  ℕ, Bool, true, false, Option, none, some, List, [], ◌∷◌, ◌++◌, if◌then◌else◌,
}
use rtmpcamera.Utils.{Packet}

abbrev pub Bytes : Type 0
Bytes = List ℕ

abbrev pub default_buffer_size : ℕ
default_buffer_size = 524288

abbrev pub min_bitrate_limit : ℕ
min_bitrate_limit = 100000

abbrev pub max_bitrate_limit : ℕ
max_bitrate_limit = 8000000

abbrev pub stats_update_interval : ℕ
stats_update_interval = 1000

abbrev pub quality_check_interval : ℕ
quality_check_interval = 5000

pub data State : Type 0 where
  idle connecting publishing playing closed : State

pub data Quality : Type 0 where
  high medium low automatic : Quality

pub record Config : Type 0 where
  pub width : ℕ
  pub height : ℕ
  pub frame_rate : ℕ
  pub video_bitrate : ℕ
  pub audio_bitrate : ℕ
  pub enable_audio : Bool
  pub enable_video : Bool
  pub video_codec : ℕ
  pub audio_codec : ℕ

-- The last four numbers of a `RTMPStreamStats` but the uptime are never written.
pub record Stats : Type 0 where
  pub video_frames_sent : ℕ
  pub audio_frames_sent : ℕ
  pub bytes_sent : ℕ
  pub current_bitrate : ℕ
  pub dropped_frames : ℕ
  pub avg_encode_time : ℕ
  pub avg_send_time : ℕ
  pub stream_uptime : ℕ

-- `StreamBuffer`: `contents` is `data`, `none` where it is NULL.
pub record Buffer : Type 0 where
  pub contents : Option Bytes
  pub size : ℕ
  pub capacity : ℕ

-- `StreamContext`
pub record Context : Type 0 where
  pub video : Buffer
  pub audio : Buffer
  pub buffer_size : ℕ
  pub max_bitrate : ℕ
  pub min_bitrate : ℕ
  pub adaptive_bitrate : Bool
  pub quality : Quality
  pub last_quality_check : ℕ
  pub last_stats_update : ℕ

-- `states` are the calls of onStateChange, `packets` those of rtmp_send_packet, and `disconnects`
-- counts those of rtmp_disconnect. `app` is what is put in the connection's settings.
pub record Stream : Type 0 where
  pub state : State
  pub config : Config
  pub stats : Stats
  pub stream_id : ℕ
  pub stream_name : Bytes
  pub context : Context
  pub has_callback : Bool
  pub states : List State
  pub packets : List Packet
  pub disconnects : ℕ
  pub app : Bytes
  pub tc_url : Bytes

abbrev pub empty_stats : Stats
empty_stats = record {
  video_frames_sent = 0;
  audio_frames_sent = 0;
  bytes_sent = 0;
  current_bitrate = 0;
  dropped_frames = 0;
  avg_encode_time = 0;
  avg_send_time = 0;
  stream_uptime = 0;
}

abbrev pub empty_buffer : Buffer
empty_buffer = record { contents = none; size = 0; capacity = 0 }

-- rtmp_stream_create
unfoldable pub create : Stream
create = record {
  state = idle;
  config = record {
    width = 1280;
    height = 720;
    frame_rate = 30;
    video_bitrate = 2000000;
    audio_bitrate = 128000;
    enable_audio = true;
    enable_video = true;
    video_codec = 0;
    audio_codec = 0;
  };
  stats = empty_stats;
  stream_id = 0;
  stream_name = [];
  context = record {
    video = empty_buffer;
    audio = empty_buffer;
    buffer_size = default_buffer_size;
    max_bitrate = max_bitrate_limit;
    min_bitrate = min_bitrate_limit;
    adaptive_bitrate = true;
    quality = high;
    last_quality_check = 0;
    last_stats_update = 0;
  };
  has_callback = false;
  states = [];
  packets = [];
  disconnects = 0;
  app = [];
  tc_url = [];
}

abbrev unless_null : Option Bytes → List Bytes
unless_null none = []
unless_null (some bytes) = bytes ∷ []

-- rtmp_stream_destroy: the buffers that are freed before the context and the stream.
unfoldable pub destroy : Stream → List Bytes
destroy s = unless_null s.context.video.contents ++ unless_null s.context.audio.contents

abbrev pub is_idle : State → Bool
is_idle idle = true
is_idle _ = false

abbrev pub is_publishing : State → Bool
is_publishing publishing = true
is_publishing _ = false

abbrev pub notify : State → Stream → List State
notify state s = if s.has_callback then s.states ++ state ∷ [] else s.states

unfoldable pub set_buffer_size : ℕ → Stream → Stream
set_buffer_size size s = record s { context = record s.context { buffer_size = size } }

-- rtmp_stream_get_buffer_size
unfoldable pub get_buffer_size : Stream → ℕ
get_buffer_size s = s.context.buffer_size

-- rtmp_stream_clear_buffers
unfoldable pub clear_buffers : Stream → Stream
clear_buffers s = record s {
  context = record s.context {
    video = record s.context.video { size = 0 };
    audio = record s.context.audio { size = 0 };
  };
}
