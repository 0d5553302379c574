-- ===== src/Quality/Checks.antt =====
-- The periodic quality check, key frames and the measured bitrate of rtmp_quality.c.
use rtmpcamera.Prelude.{
  ℕ, ◌*◌, ◌/◌, ◌+◌, ◌≤◌, ◌<◌, ◌≡◌, ◌≢◌, ◌⊎◌, some, arith, u32_mod, ◌>>=◌, sub32, u32, Bool,
  if◌then◌else◌, List, [], ◌∷◌, leb, ltb,
}
use rtmpcamera.Quality.{
  Controller, Level, auto, high, targets, high_bitrate, high_fps, quality_check_interval,
  add_keyframe, update_bitrate,
}
use rtmpcamera.Quality.Adjust.{should_decrease_quality, check_and_adjust, should_send_keyframe}

-- What a check of an automatic controller comes to: the targets of the HIGH level if the quality
-- should fall, and no change otherwise.
abbrev pub auto_outcome : Controller → Bool → Controller × List Level
auto_outcome c down =
    if down
    then (targets c high_bitrate high_fps, if c.has_callback then high ∷ [] else [])
    else (c, [])

-- A due check of a controller in AUTO mode, the clock's two readings less than 10 seconds apart:
-- it never raises the quality, the level stays AUTO, and when the quality should fall the targets
-- become those of the HIGH level (2.5 Mbit/s and 30 frames), which the callback is told; a
-- division by zero in the tests makes the whole check undefined.
pub check_and_adjust_auto :
    (now later : ℕ) (c : Controller)
    → c.config.level ≡ auto
    → quality_check_interval ≤ sub32 now c.last_check
    → sub32 later now < 10000
    → check_and_adjust now later c ≡ (
        should_decrease_quality (record c { last_check = now }) >>= λ down.
        some (auto_outcome (record c { last_check = now }) down))
unfolding check_and_adjust
check_and_adjust_auto now later c a due soon = ground arith

-- A check before its time, or of a controller at a fixed level, is defined, calls nobody and leaves the configuration and the statistics as they are.
pub check_and_adjust_idle :
    (now later : ℕ) (c : Controller)
    → (sub32 now c.last_check < quality_check_interval) ⊎ (c.config.level ≢ auto)
    → check_and_adjust now later c
      ≡ some (
        record c {
          last_check =
              if ltb (sub32 now c.last_check) quality_check_interval then c.last_check else now;
        },
        [],
      )
unfolding check_and_adjust
check_and_adjust_idle now later c h = ground arith

-- `d` milliseconds after a key frame, also across a wrap of the 32-bit clock, another one is due
-- exactly when the configured interval is at most `d`.
pub should_send_keyframe-add_keyframe :
    (now d : ℕ) (c : Controller)
    → now < u32_mod
    → d < u32_mod
    → should_send_keyframe (u32 (now + d)) (add_keyframe now c) ≡ leb c.config.keyframe_interval d
unfolding should_send_keyframe add_keyframe
should_send_keyframe-add_keyframe now d c h k = ground arith

-- For a nonzero duration the measured bitrate is `bytes * 8000 / duration` unless more than 536870
-- bytes were counted, and at any count it times the duration stays below 2 ^ 32.
pub update_bitrate_exact :
    (c : Controller) (bytes duration : ℕ)
    → duration ≢ 0
    → let rate = (update_bitrate c bytes duration).stats.current_bitrate in
      ((536870 < bytes) ⊎ (rate ≡ bytes * 8000 / duration)) × (rate * duration < u32_mod)
unfolding update_bitrate
update_bitrate_exact c bytes duration nz = grind arith
