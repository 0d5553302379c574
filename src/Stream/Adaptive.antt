-- ===== src/Stream/Adaptive.antt =====
-- rtmp_stream.c: what the checks of the quality lead to.
use rtmpcamera.Prelude.{ℕ, ◌+◌, ◌*◌, ◌≤◌, ◌<◌, ◌≡◌, ◌⊎◌, true, arith, sub32, u32_mod}
use rtmpcamera.Stream.{Stream, Quality, high, medium, low, automatic, quality_check_interval}
use rtmpcamera.Stream.Metadata.{Link}
use rtmpcamera.Stream.Settings.Keeps.{bitrate_for, set_quality-keeps}
use rtmpcamera.Stream.Media.{check_quality, choose_quality, higher}

-- The bitrate of each quality lies between the limits.
bitrate_for-between :
    (quality : Quality) (s : Stream)
    → s.context.min_bitrate ≤ s.context.max_bitrate
    → s.context.max_bitrate + s.context.min_bitrate < u32_mod
    → (bitrate_for quality s ≡ s.config.video_bitrate)
      ⊎ ((s.context.min_bitrate ≤ bitrate_for quality s)
          × (bitrate_for quality s ≤ s.context.max_bitrate))
bitrate_for-between high s m w = ground arith
bitrate_for-between medium s m w = ground arith
bitrate_for-between low s m w = ground arith
bitrate_for-between automatic s m w = ground arith

module _ (link : Link) where
  -- A check that is due, on a stream that adapts: the quality moves by one step down above 90% of the
  -- maximum and one step up below 70%, and the configured bitrate is left alone, or lies between
  -- the minimum and the maximum. Minimum and maximum are in order and their sum fits 32 bits.
  pub check_quality-between :
      (now : ℕ) (s : Stream)
      → s.context.adaptive_bitrate ≡ true
      → quality_check_interval ≤ sub32 now s.context.last_quality_check
      → s.context.min_bitrate ≤ s.context.max_bitrate
      → s.context.max_bitrate + s.context.min_bitrate < u32_mod
      → ((check_quality link now s).context.quality ≡ choose_quality s)
        × (((check_quality link now s).config.video_bitrate ≡ s.config.video_bitrate)
            ⊎ ((s.context.min_bitrate ≤ (check_quality link now s).config.video_bitrate)
                × ((check_quality link now s).config.video_bitrate ≤ s.context.max_bitrate)))
  unfolding check_quality
  check_quality-between now s a d m w = ground (
    arith,
    set_quality-keeps link (choose_quality s) s,
    bitrate_for-between (choose_quality s) s m w,
  )

  -- A check that is due below 70% of the maximum.
  raised :
      (now : ℕ) (s : Stream)
      → s.context.adaptive_bitrate ≡ true
      → s.stats.current_bitrate * 10 < s.context.max_bitrate * 7
      → quality_check_interval ≤ sub32 now s.context.last_quality_check
      → ((check_quality link now s).context
          ≡ record s.context { quality = higher s.context.quality; last_quality_check = now })
        × ((check_quality link now s).stats ≡ s.stats)
        × ((s.context.quality ≡ medium)
            → (check_quality link now s).config.video_bitrate ≡ s.context.max_bitrate)
  unfolding check_quality choose_quality
  raised now s a c d = ground (arith, set_quality-keeps link (higher s.context.quality) s)

  -- On a stream that adapts and whose measured bitrate stays below 70% of the maximum, two checks that
  -- are due, from quality LOW on, end at quality HIGH with the maximum for the video: a link that
  -- carries little is asked for more.
  pub check_quality_raises :
      (first second : ℕ) (s : Stream)
      → s.context.adaptive_bitrate ≡ true
      → s.context.quality ≡ low
      → s.stats.current_bitrate * 10 < s.context.max_bitrate * 7
      → quality_check_interval ≤ sub32 first s.context.last_quality_check
      → quality_check_interval ≤ sub32 second first
      → ((check_quality link second (check_quality link first s)).context.quality ≡ high)
        × ((check_quality link second (check_quality link first s)).config.video_bitrate
            ≡ s.context.max_bitrate)
  check_quality_raises first second s a q c d e =
      let one = raised first s a c d in
      let two =
        raised second (check_quality link first s) (ground arith) (ground arith) (ground arith) in
      ground (arith, one.0, two.0, two.2)
