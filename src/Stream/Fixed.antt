-- ===== src/Stream/Fixed.antt =====
-- rtmp_stream.c: what the statistics measure, and what the quality does at the default limits.
use rtmpcamera.Prelude.{
  ℕ, ◌+◌, ◌*◌, ◌/◌, ◌≤◌, ◌≡◌, refl, Bool, [], ◌∷◌, arith, u32, sub32, ◌++◌, length, take, inl, inr,
  Option-cases,
}
use native.Mathlib.Nat.{div-lt_iff_lt-mul}
use rtmpcamera.Stream.{Bytes, Stream, high, publishing, max_bitrate_limit, stats_update_interval}
use rtmpcamera.Stream.Url.{parse}
use rtmpcamera.Stream.Metadata.{Link, announce, packet_of}
use rtmpcamera.Stream.Settings.{set_video_config, set_audio_config}
use rtmpcamera.Stream.Settings.Keeps.{announce-SameBut, set_video_config-keeps}
use rtmpcamera.Stream.Control.{connect, connect_to, disconnect, publish}
use rtmpcamera.Stream.Media.{update_stats, choose_quality, check_quality, send_video, send_audio}

-- The greatest quotient of a 32-bit number and a thousand.
abbrev pub measured_max : ℕ
measured_max = 4294967

-- The maximum is the default, the measured bitrate is far below it, the quality is the highest, and
-- the video's bitrate is the one given.
abbrev pub IsFixed : ℕ → Stream → Type 0
IsFixed bitrate s =
    (s.context.max_bitrate ≡ max_bitrate_limit)
    × (s.stats.current_bitrate ≤ measured_max)
    × (s.context.quality ≡ high)
    × (s.config.video_bitrate ≡ bitrate)

measured_le : (n d : ℕ) → stats_update_interval ≤ d → u32 n / d ≤ measured_max
measured_le n d h =
    omega
      (arith, (div-lt_iff_lt-mul {k = d} {x = u32 n} {y = 4294968} (omega arith)).1 (omega arith))

update_stats-IsFixed : (b now : ℕ) (s : Stream) → IsFixed b s → IsFixed b (update_stats now s)
unfolding update_stats
update_stats-IsFixed b now s f =
    ground (arith, measured_le (s.stats.bytes_sent * 8000) (sub32 now s.context.last_stats_update))

module _ (link : Link) where
  check_quality-IsFixed :
      (b now : ℕ) (s : Stream) → IsFixed b s → IsFixed b (check_quality link now s)
  unfolding check_quality choose_quality
  check_quality-IsFixed b now s f = ground arith

  announce-IsFixed : (b : ℕ) (s : Stream) → IsFixed b s → IsFixed b (announce link s).1
  announce-IsFixed b s f =
      let same = announce-SameBut link s in rw (same.config, same.stats, same.context) f

  pub send_video-IsFixed :
      (bytes : Bytes) (t now : ℕ) (k : Bool) (b : ℕ) (s : Stream)
      → IsFixed b s
      → IsFixed b (send_video link bytes t now k s).1
  unfolding send_video
  send_video-IsFixed bytes t now k b s f =
      let counted = update_stats-IsFixed b now sent f in
      ground (arith, f, counted, check_quality-IsFixed b now (update_stats now sent) counted)
    where
      sent : Stream
      sent = record s {
        packets = s.packets ++ packet_of 9 t bytes s ∷ [];
        stats = record s.stats {
          video_frames_sent = u32 (s.stats.video_frames_sent + 1);
          bytes_sent = u32 (s.stats.bytes_sent + length bytes);
        };
      }

  pub send_audio-IsFixed :
      (bytes : Bytes) (t now : ℕ) (b : ℕ) (s : Stream)
      → IsFixed b s
      → IsFixed b (send_audio link bytes t now s).1
  unfolding send_audio
  send_audio-IsFixed bytes t now b s f = ground (arith, f, update_stats-IsFixed b now sent f)
    where
      sent : Stream
      sent = record s {
        packets = s.packets ++ packet_of 8 t bytes s ∷ [];
        stats = record s.stats {
          audio_frames_sent = u32 (s.stats.audio_frames_sent + 1);
          bytes_sent = u32 (s.stats.bytes_sent + length bytes);
        };
      }

  pub connect-IsFixed :
      (url : Bytes) (c d : Bool) (b : ℕ) (s : Stream)
      → IsFixed b s
      → IsFixed b (connect url c d s).1
  unfolding connect connect_to
  connect-IsFixed url c d b s f = elim (Option-cases (parse url)) [
    | inl bad ↦ rw bad f
    | inr (address, good) ↦ rw good (ground arith)
  ]

  pub disconnect-IsFixed : (b : ℕ) (s : Stream) → IsFixed b s → IsFixed b (disconnect s)
  unfolding disconnect
  disconnect-IsFixed b s f = ground arith

  pub publish-IsFixed :
      (name : Bytes) (c d : Bool) (b : ℕ) (s : Stream)
      → IsFixed b s
      → IsFixed b (publish link name c d s).1
  unfolding publish
  publish-IsFixed name c d b s f = ground (
    arith,
    f,
    announce-IsFixed b (record s { stream_name = take 255 name; state = publishing }) f,
  )

  pub set_video_config-IsFixed :
      (w h r bitrate b : ℕ) (s : Stream)
      → IsFixed b s
      → IsFixed bitrate (set_video_config link w h r bitrate s)
  set_video_config-IsFixed w h r bitrate b s f =
      let (context, stats, state, set) = set_video_config-keeps link w h r bitrate s in
      rw (context, stats, set) (f.0, f.1, f.2, refl)

  pub set_audio_config-IsFixed :
      (r c bitrate b : ℕ) (s : Stream)
      → IsFixed b s
      → IsFixed b (set_audio_config link r c bitrate s)
  unfolding set_audio_config
  set_audio_config-IsFixed r c bitrate b s f = ground (
    arith,
    f,
    announce-IsFixed b (record s { config = record s.config { audio_bitrate = bitrate } }) f,
  )
