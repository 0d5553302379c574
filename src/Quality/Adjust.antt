-- ===== src/Quality/Adjust.antt =====
-- rtmp_quality.c: frame dropping and key frames, and the periodic check that moves the quality
-- level (rtmp_quality_check_and_adjust, adjust_quality, should_increase_quality,
-- should_decrease_quality).
use rtmpcamera.Prelude.{
  ℕ, ◌+◌, ◌*◌, ◌/◌, Bool, true, false, not, Option, some, List, [], ◌∷◌, ltb, leb, if◌then◌else◌,
  ◌>>=◌, u32, sub32,
}
use rtmpcamera.Quality.{
  Level, low, medium, high, auto, Controller, level_eq, buffer_health_target, max_latency,
  quality_check_interval,
}
use rtmpcamera.Quality.Targets.{div_u32, apply_quality_level}

unfoldable pub should_drop_frame : Controller → Option Bool
unfolding div_u32
should_drop_frame c =
    if ltb (buffer_health_target * 2) c.stats.buffer_health
    then some true
    else if ltb (c.config.target_fps * 11) (c.stats.current_fps * 10)
    then some true
    else do
      budget ← div_u32 1000 c.config.target_fps
      some (ltb budget (u32 (c.stats.encoding_time + c.stats.sending_time)))

unfoldable pub should_send_keyframe : (now : ℕ) → Controller → Bool
should_send_keyframe now c = leb c.config.keyframe_interval (sub32 now c.last_keyframe)

unfoldable pub should_decrease_quality : Controller → Option Bool
unfolding div_u32
should_decrease_quality c =
    if ltb c.stats.buffer_health (buffer_health_target / 2)
    then some true
    else if ltb (c.stats.current_fps / 2) c.stats.dropped_frames
    then some true
    else if ltb 7500 c.stats.latency
    then some true
    else if ltb (c.config.target_bitrate * 6) (c.stats.current_bitrate * 5)
    then some true
    else do
      budget ← div_u32 1000 c.config.target_fps
      some (ltb budget (u32 (c.stats.encoding_time + c.stats.sending_time)))

unfoldable pub should_increase_quality : (now : ℕ) → Controller → Option Bool
unfolding div_u32
should_increase_quality now c =
    if ltb c.stats.buffer_health buffer_health_target
    then some false
    else if ltb 0 c.stats.dropped_frames
    then some false
    else if ltb max_latency c.stats.latency
    then some false
    else if ltb c.config.target_bitrate c.stats.current_bitrate
    then some false
    else do
      budget ← div_u32 1000 c.config.target_fps
      some (
          if ltb (budget * 4) (u32 (c.stats.encoding_time + c.stats.sending_time) * 5)
          then false
          else not (ltb (sub32 now c.last_check) (quality_check_interval * 2)))

-- `if (newLevel > RTMP_QUALITY_LEVEL_LOW) newLevel--;`
abbrev pub lowered : Level → Level
lowered low = low
lowered medium = low
lowered high = medium
lowered auto = high

-- `if (newLevel < RTMP_QUALITY_LEVEL_HIGH) newLevel++;`
abbrev pub raised : Level → Level
raised low = medium
raised medium = high
raised high = high
raised auto = auto

-- the level that the two tests choose; `now` is the clock at the call in should_increase_quality
unfoldable pub new_level : (now : ℕ) → Controller → Option Level
unfolding should_decrease_quality should_increase_quality
new_level now c = do
  down ← should_decrease_quality c
  if down then some (lowered c.config.level) else (do
    up ← should_increase_quality now c
    some (if up then raised c.config.level else c.config.level))

unfoldable pub adjust_quality : (now : ℕ) → Controller → Option (Controller × List Level)
unfolding new_level apply_quality_level
adjust_quality now c = do
  level ← new_level now c
  if level_eq level c.config.level then some (c, []) else (do
    c' ← apply_quality_level c level
    some (c', if c.has_callback then level ∷ [] else []))

-- `now` at the check itself, `later` at the second reading of the clock
unfoldable pub check_and_adjust : (now later : ℕ) → Controller → Option (Controller × List Level)
unfolding adjust_quality
check_and_adjust now later c =
    if ltb (sub32 now c.last_check) quality_check_interval
    then some (c, [])
    else let c' = record c { last_check = now } in
      if level_eq c.config.level auto then adjust_quality later c' else some (c', [])
