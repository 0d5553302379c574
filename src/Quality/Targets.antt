-- ===== src/Quality/Targets.antt =====
-- rtmp_quality.c: the targets of a quality level (apply_quality_level, calculate_optimal_bitrate,
-- calculate_optimal_fps) and rtmp_quality_set_level.
use rtmpcamera.Prelude.{
  ℕ, ◌*◌, ◌/◌, not, Option, none, some, ltb, ◌==◌, if◌then◌else◌, ◌>>=◌, u32_mod,
}
use rtmpcamera.Quality.{
  Level, low, medium, high, auto, Stats, Controller, with_config, targets, level_eq, low_bitrate,
  medium_bitrate, high_bitrate, low_fps, medium_fps, high_fps, buffer_health_target, max_latency,
}

-- `a / b` on `uint32_t`
unfoldable pub div_u32 : ℕ → ℕ → Option ℕ
div_u32 a b = if b == 0 then none else some (a / b)

-- `(uint32_t)` of a nonnegative `double` whose integer part is `n`
unfoldable pub cast_u32 : ℕ → Option ℕ
cast_u32 n = if ltb n u32_mod then some n else none

unfoldable pub clamp : ℕ → ℕ → ℕ → ℕ
clamp lo hi x = if ltb x lo then lo else if ltb hi x then hi else x

unfoldable pub buffer_scaled : Stats → Option ℕ
unfolding cast_u32
buffer_scaled s =
    if ltb s.buffer_health buffer_health_target
    then cast_u32 (s.current_bitrate * 4 / 5)
    else if ltb (buffer_health_target * 2) s.buffer_health
    then cast_u32 (s.current_bitrate * 6 / 5)
    else some s.current_bitrate

unfoldable pub calculate_optimal_bitrate : Controller → Option ℕ
unfolding buffer_scaled cast_u32 clamp
calculate_optimal_bitrate c = do
  b ← buffer_scaled c.stats
  b ← if ltb 0 c.stats.dropped_frames then cast_u32 (b * 9 / 10) else some b
  b ← if ltb max_latency c.stats.latency then cast_u32 (b * 4 / 5) else some b
  some (clamp low_bitrate high_bitrate b)

-- one `if (time > (1000 / fps)) fps = (uint32_t)(fps * 0.8)`
unfoldable pub slow_down : ℕ → ℕ → Option ℕ
unfolding div_u32 cast_u32
slow_down time fps = do
  budget ← div_u32 1000 fps
  if ltb budget time then cast_u32 (fps * 4 / 5) else some fps

unfoldable pub calculate_optimal_fps : Controller → Option ℕ
unfolding slow_down clamp
calculate_optimal_fps c = do
  f ← slow_down c.stats.encoding_time c.config.target_fps
  f ← slow_down c.stats.sending_time f
  some (clamp low_fps high_fps f)

unfoldable pub apply_quality_level : Controller → Level → Option Controller
unfolding calculate_optimal_bitrate calculate_optimal_fps
apply_quality_level c low = some (targets c low_bitrate low_fps)
apply_quality_level c medium = some (targets c medium_bitrate medium_fps)
apply_quality_level c high = some (targets c high_bitrate high_fps)
apply_quality_level c auto = do
  bitrate ← calculate_optimal_bitrate c
  let c' = with_config c (record c.config { target_bitrate = bitrate })
  fps ← calculate_optimal_fps c'
  some (with_config c' (record c'.config { target_fps = fps }))

unfoldable pub set_level : Controller → Level → Option Controller
unfolding apply_quality_level
set_level c level =
    if not (level_eq c.config.level level)
    then apply_quality_level (with_config c (record c.config { level = level })) level
    else some c
