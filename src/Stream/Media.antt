-- ===== src/Stream/Media.antt =====
-- rtmp_stream.c: audio and video, the statistics and the checks of the quality.
--
-- The thresholds 0.9 and 0.7 of the maximum are written with whole numbers: the comparison of an
-- integer with the product in `double` agrees.
use rtmpcamera.Prelude.{
  ℕ, ◌+◌, ◌*◌, ◌/◌, Bool, true, false, not, ◌&&◌, ◌||◌, if◌then◌else◌, ◌==◌, leb, ltb, length, u32,
  sub32,
}
use rtmpcamera.Stream.{
  Bytes, Stream, Stats, Quality, high, medium, low, automatic, is_publishing, empty_stats,
  stats_update_interval, quality_check_interval,
}
use rtmpcamera.Stream.Metadata.{Link, packet_of, hand_over}
use rtmpcamera.Stream.Settings.{set_quality}

-- update_stats, on `uint32_t`
unfoldable pub update_stats : (now : ℕ) → Stream → Stream
update_stats now s =
    let duration = sub32 now s.context.last_stats_update in
    if ltb duration stats_update_interval then s else record s {
      stats = record s.stats {
        current_bitrate = u32 (s.stats.bytes_sent * 8000) / duration;
        bytes_sent = 0;
        stream_uptime = sub32 now s.stats.stream_uptime;
      };
      context = record s.context { last_stats_update = now };
    }

-- `newQuality++` below LOW, and `newQuality--` above HIGH.
abbrev pub lower : Quality → Quality
lower high = medium
lower medium = low
lower q = q

abbrev pub higher : Quality → Quality
higher medium = high
higher low = medium
higher automatic = low
higher high = high

abbrev same_quality : Quality → Quality → Bool
same_quality high high = true
same_quality medium medium = true
same_quality low low = true
same_quality automatic automatic = true
same_quality _ _ = false

-- The quality that check_quality chooses.
unfoldable pub choose_quality : Stream → Quality
choose_quality s =
    let current = s.stats.current_bitrate in
    if ltb (s.context.max_bitrate * 9) (current * 10)
    then lower s.context.quality
    else if ltb (current * 10) (s.context.max_bitrate * 7)
    then higher s.context.quality
    else s.context.quality

module _ (link : Link) where
  -- check_quality
  unfoldable pub check_quality : (now : ℕ) → Stream → Stream
  unfolding choose_quality
  check_quality now s =
      let quality = choose_quality s in
      let set = if same_quality quality s.context.quality then s else set_quality link quality s in
      if not s.context.adaptive_bitrate
      then s
      else if ltb (sub32 now s.context.last_quality_check) quality_check_interval
      then s
      else record set { context = record set.context { last_quality_check = now } }

  -- rtmp_stream_send_video
  unfoldable pub send_video :
      (bytes : Bytes) → (timestamp now : ℕ) → (keyframe : Bool) → Stream → Bool × Stream
  unfolding update_stats check_quality
  send_video bytes timestamp now keyframe s =
      let packet = packet_of 9 timestamp bytes s in
      let given = hand_over packet s in
      let counted = update_stats now (record given {
        stats = record given.stats {
          video_frames_sent = u32 (s.stats.video_frames_sent + 1);
          bytes_sent = u32 (s.stats.bytes_sent + length bytes);
        };
      }) in
      if length bytes == 0 || not (is_publishing s.state)
      then (false, s)
      else if not (link.send_packet packet)
      then (false, given)
      else if counted.config.enable_video && keyframe
      then (true, check_quality now counted)
      else (true, counted)

  -- rtmp_stream_send_audio
  unfoldable pub send_audio : (bytes : Bytes) → (timestamp now : ℕ) → Stream → Bool × Stream
  unfolding update_stats
  send_audio bytes timestamp now s =
      let packet = packet_of 8 timestamp bytes s in
      let given = hand_over packet s in
      let counted = update_stats now (record given {
        stats = record given.stats {
          audio_frames_sent = u32 (s.stats.audio_frames_sent + 1);
          bytes_sent = u32 (s.stats.bytes_sent + length bytes);
        };
      }) in
      if length bytes == 0 || not (is_publishing s.state)
      then (false, s)
      else if not (link.send_packet packet)
      then (false, given)
      else (true, counted)

-- rtmp_stream_get_stats
unfoldable pub get_stats : Stream → Stats
get_stats s = s.stats

unfoldable pub reset_stats : Stream → Stream
reset_stats s = record s { stats = empty_stats }

-- rtmp_stream_get_fps
unfoldable pub get_fps : (now : ℕ) → Stream → ℕ
get_fps now s = if leb 1000 (sub32 now s.stats.stream_uptime) then s.stats.video_frames_sent else 0
