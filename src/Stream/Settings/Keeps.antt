-- ===== src/Stream/Settings/Keeps.antt =====
-- rtmp_stream.c: what a change of the configuration leaves as it was.
use rtmpcamera.Prelude.{ℕ, ◌+◌, ◌/◌, ◌≡◌, refl, ap, inl, inr, u32, Bool-cases, Option-cases, codes}
use rtmpcamera.Stream.{Stream, Config, Quality, high, medium, low, automatic, is_publishing}
use rtmpcamera.Stream.Metadata.{Link, properties, send_metadata, announce}
use rtmpcamera.Stream.Settings.{set_video_config, set_quality}

-- All of a stream but its packets.
pub record SameBut (s t : Stream) : Type 0 where
  pub state : t.state ≡ s.state
  pub config : t.config ≡ s.config
  pub stats : t.stats ≡ s.stats
  pub context : t.context ≡ s.context

-- The video's bitrate that a quality asks for.
abbrev pub bitrate_for : Quality → Stream → ℕ
bitrate_for high s = s.context.max_bitrate
bitrate_for medium s = u32 (s.context.max_bitrate + s.context.min_bitrate) / 2
bitrate_for low s = s.context.min_bitrate
bitrate_for automatic s = s.config.video_bitrate

module _ (link : Link) where
  pub announce-SameBut : (s : Stream) → SameBut s (announce link s).1
  unfolding announce send_metadata
  announce-SameBut s = elim (Bool-cases link.creates_object) [
    | inl creates ↦
        elim (Option-cases (link.encode_metadata (codes "@setDataFrame") (properties s))) [
          | inl nothing ↦
              rw (creates, nothing)
                (record { state = refl; config = refl; stats = refl; context = refl })
          | inr (bytes, e) ↦
              rw (creates, e) (record { state = refl; config = refl; stats = refl; context = refl })
        ]
    | inr refuses ↦
        rw refuses (record { state = refl; config = refl; stats = refl; context = refl })
  ]

  pub set_video_config-keeps :
      (width height frame_rate bitrate : ℕ) (s : Stream)
      → ((set_video_config link width height frame_rate bitrate s).context ≡ s.context)
        × ((set_video_config link width height frame_rate bitrate s).stats ≡ s.stats)
        × ((set_video_config link width height frame_rate bitrate s).state ≡ s.state)
        × ((set_video_config link width height frame_rate bitrate s).config.video_bitrate ≡ bitrate)
  unfolding set_video_config
  set_video_config-keeps width height frame_rate bitrate s =
      let same = announce-SameBut set in
      elim (Bool-cases (is_publishing s.state)) [
        | inl on ↦
            rw on (
              same.context,
              same.stats,
              same.state,
              ap (λ (c : Config). c.video_bitrate) same.config,
            )
        | inr off ↦ rw off (refl, refl, refl, refl)
      ]
    where
      set : Stream
      set = record s {
        config = record s.config {
          width = width;
          height = height;
          frame_rate = frame_rate;
          video_bitrate = bitrate;
        };
      }

  pub set_quality-keeps :
      (quality : Quality) (s : Stream)
      → ((set_quality link quality s).context ≡ record s.context { quality = quality })
        × ((set_quality link quality s).stats ≡ s.stats)
        × ((set_quality link quality s).state ≡ s.state)
        × ((set_quality link quality s).config.video_bitrate ≡ bitrate_for quality s)
  unfolding set_quality
  set_quality-keeps high s =
      set_video_config-keeps _ _ _ _ (record s { context = record s.context { quality = high } })
  set_quality-keeps medium s =
      set_video_config-keeps _ _ _ _ (record s { context = record s.context { quality = medium } })
  set_quality-keeps low s =
      set_video_config-keeps _ _ _ _ (record s { context = record s.context { quality = low } })
  set_quality-keeps automatic s = (refl, refl, refl, refl)
