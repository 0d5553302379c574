-- ===== src/Stream/Unchanged.antt =====
-- rtmp_stream.c: whether the adaptive bitrate ever acts at the default limits.
use rtmpcamera.Prelude.{ℕ, ◌≤◌, ◌≡◌, refl, Bool, List, [], ◌∷◌, arith}
use rtmpcamera.Stream.{Bytes, Stream, high, create, set_buffer_size, clear_buffers}
use rtmpcamera.Stream.Metadata.{Link}
use rtmpcamera.Stream.Settings.{
  set_video_config, set_audio_config, enable_audio, enable_video, set_min_bitrate,
  enable_adaptive_bitrate,
}
use rtmpcamera.Stream.Control.{connect, disconnect, publish}
use rtmpcamera.Stream.Media.{send_video, send_audio, reset_stats}
use rtmpcamera.Stream.Fixed.{
  IsFixed, measured_max, send_video-IsFixed, send_audio-IsFixed, connect-IsFixed,
  disconnect-IsFixed, publish-IsFixed, set_video_config-IsFixed, set_audio_config-IsFixed,
}

-- The calls of a stream's user but those of rtmp_stream_set_quality and rtmp_stream_set_max_bitrate,
-- with what the connection and the clock give.
pub data Op : Type 0 where
  connects : (url : Bytes) → (connects sends : Bool) → Op
  disconnects : Op
  publishes : (name : Bytes) → (creates publishes : Bool) → Op
  sends_video : (bytes : Bytes) → (timestamp now : ℕ) → (keyframe : Bool) → Op
  sends_audio : (bytes : Bytes) → (timestamp now : ℕ) → Op
  sets_video : (width height frame_rate bitrate : ℕ) → Op
  sets_audio : (sample_rate channels bitrate : ℕ) → Op
  enables_audio enables_video enables_adaptive : Bool → Op
  sets_min_bitrate sets_buffer_size : ℕ → Op
  resets_stats clears_buffers : Op

-- The bitrate that a call configures.
abbrev pub configures : Op → ℕ → ℕ
configures (sets_video w h r bitrate) b = bitrate
configures _ b = b

abbrev pub configured : List Op → ℕ → ℕ
configured [] b = b
configured (op ∷ ops) b = configured ops (configures op b)

module _ (link : Link) where
  unfoldable pub step : Op → Stream → Stream
  unfolding connect disconnect publish send_video send_audio set_video_config set_audio_config
      enable_audio enable_video enable_adaptive_bitrate set_min_bitrate set_buffer_size reset_stats
      clear_buffers
  step (connects url c d) s = (connect url c d s).1
  step disconnects s = disconnect s
  step (publishes name c d) s = (publish link name c d s).1
  step (sends_video bytes t now k) s = (send_video link bytes t now k s).1
  step (sends_audio bytes t now) s = (send_audio link bytes t now s).1
  step (sets_video w h r bitrate) s = set_video_config link w h r bitrate s
  step (sets_audio r c bitrate) s = set_audio_config link r c bitrate s
  step (enables_audio on) s = enable_audio on s
  step (enables_video on) s = enable_video on s
  step (enables_adaptive on) s = enable_adaptive_bitrate on s
  step (sets_min_bitrate bitrate) s = set_min_bitrate bitrate s
  step (sets_buffer_size size) s = set_buffer_size size s
  step resets_stats s = reset_stats s
  step clears_buffers s = clear_buffers s

  unfoldable pub run : List Op → Stream → Stream
  run [] s = s
  run (op ∷ ops) s = run ops (step op s)

  step-IsFixed :
      (op : Op) (b : ℕ) (s : Stream) → IsFixed b s → IsFixed (configures op b) (step op s)
  unfolding step
  step-IsFixed (connects url c d) b s f = connect-IsFixed link url c d b s f
  step-IsFixed disconnects b s f = disconnect-IsFixed link b s f
  step-IsFixed (publishes name c d) b s f = publish-IsFixed link name c d b s f
  step-IsFixed (sends_video bytes t now k) b s f = send_video-IsFixed link bytes t now k b s f
  step-IsFixed (sends_audio bytes t now) b s f = send_audio-IsFixed link bytes t now b s f
  step-IsFixed (sets_video w h r bitrate) b s f = set_video_config-IsFixed link w h r bitrate b s f
  step-IsFixed (sets_audio r c bitrate) b s f = set_audio_config-IsFixed link r c bitrate b s f
  step-IsFixed (enables_audio on) b s f = f
  step-IsFixed (enables_video on) b s f = f
  step-IsFixed (enables_adaptive on) b s f = f
  step-IsFixed (sets_min_bitrate bitrate) b s f = f
  step-IsFixed (sets_buffer_size size) b s f = f
  step-IsFixed resets_stats b s f = (f.0, omega arith, f.2, f.3)
  step-IsFixed clears_buffers b s f = f

  run-IsFixed :
      (ops : List Op) (b : ℕ) (s : Stream) → IsFixed b s → IsFixed (configured ops b) (run ops s)
  unfolding run
  run-IsFixed [] b s f = f
  run-IsFixed (op ∷ ops) b s f =
      run-IsFixed ops (configures op b) (step op s) (step-IsFixed op b s f)

  -- However a stream is used after rtmp_stream_create, with no call of rtmp_stream_set_quality and
  -- rtmp_stream_set_max_bitrate: the measured bitrate stays at or below 4294967, the quality stays
  -- HIGH, and the video's bitrate is 2000000 or what the last rtmp_stream_set_video_config asked
  -- for: no check of the quality changes them.
  pub run-create :
      (ops : List Op)
      → ((run ops create).stats.current_bitrate ≤ measured_max)
        × ((run ops create).context.quality ≡ high)
        × ((run ops create).config.video_bitrate ≡ configured ops 2000000)
  unfolding create
  run-create ops =
      let fixed = run-IsFixed ops 2000000 create (refl, omega arith, refl, refl) in
      (fixed.1, fixed.2, fixed.3)
