-- ===== src/Stream/Settings.antt =====
-- rtmp_stream.c: the configuration of a stream and its quality.
pub mod Keeps
use rtmpcamera.Prelude.{ℕ, ◌+◌, ◌/◌, Bool, if◌then◌else◌, ltb, u32}
use rtmpcamera.Stream.{
  Stream, Quality, high, medium, low, automatic, is_publishing, min_bitrate_limit,
  max_bitrate_limit,
}
use rtmpcamera.Stream.Metadata.{Link, announce}

module _ (link : Link) where
  -- The result of the metadata is not read.
  abbrev announce_if_publishing : Stream → Stream
  announce_if_publishing s = if is_publishing s.state then (announce link s).1 else s

  -- rtmp_stream_set_video_config
  unfoldable pub set_video_config : (width height frame_rate bitrate : ℕ) → Stream → Stream
  set_video_config width height frame_rate bitrate s = announce_if_publishing (record s {
    config = record s.config {
      width = width;
      height = height;
      frame_rate = frame_rate;
      video_bitrate = bitrate;
    };
  })

  -- rtmp_stream_set_audio_config: the rate and the channels are not used.
  unfoldable pub set_audio_config : (sample_rate channels bitrate : ℕ) → Stream → Stream
  set_audio_config sample_rate channels bitrate s =
      announce_if_publishing (record s { config = record s.config { audio_bitrate = bitrate } })

  -- rtmp_stream_set_quality
  unfoldable pub set_quality : Quality → Stream → Stream
  unfolding set_video_config
  set_quality quality s = set_bitrate quality
    where
      chosen : Stream
      chosen = record s { context = record s.context { quality = quality } }

      with_bitrate : ℕ → Stream
      with_bitrate bitrate =
          set_video_config s.config.width s.config.height s.config.frame_rate bitrate chosen

      set_bitrate : Quality → Stream
      set_bitrate high = with_bitrate s.context.max_bitrate
      set_bitrate medium = with_bitrate (u32 (s.context.max_bitrate + s.context.min_bitrate) / 2)
      set_bitrate low = with_bitrate s.context.min_bitrate
      set_bitrate automatic = chosen

unfoldable pub enable_audio : Bool → Stream → Stream
enable_audio enable s = record s { config = record s.config { enable_audio = enable } }

unfoldable pub enable_video : Bool → Stream → Stream
enable_video enable s = record s { config = record s.config { enable_video = enable } }

-- rtmp_stream_set_max_bitrate
unfoldable pub set_max_bitrate : ℕ → Stream → Stream
set_max_bitrate bitrate s = record s {
  context = record s.context {
    max_bitrate = if ltb min_bitrate_limit bitrate then bitrate else min_bitrate_limit;
  };
}

-- rtmp_stream_set_min_bitrate
unfoldable pub set_min_bitrate : ℕ → Stream → Stream
set_min_bitrate bitrate s = record s {
  context = record s.context {
    min_bitrate = if ltb bitrate max_bitrate_limit then bitrate else max_bitrate_limit;
  };
}

unfoldable pub enable_adaptive_bitrate : Bool → Stream → Stream
enable_adaptive_bitrate enable s = record s {
  context = record s.context { adaptive_bitrate = enable };
}
