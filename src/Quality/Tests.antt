-- ===== src/Quality/Tests.antt =====
-- Runs of rtmp_quality.c on concrete controllers, and the theorems at them.
use rtmpcamera.Prelude.{
  ℕ, ◌*◌, ◌/◌, ◌+◌, ◌<◌, ◌≡◌, refl, ◌⊎◌, inl, Option, none, some, arith, u32_mod, ◌>>=◌, u32, true,
  [], ◌∷◌, leb,
}
use rtmpcamera.Quality.{
  Controller, low, high, targets, add_keyframe, update_bitrate, create, zero_stats,
}
use rtmpcamera.Quality.Adjust.{
  should_decrease_quality, check_and_adjust, should_send_keyframe, should_drop_frame,
}
use rtmpcamera.Quality.Targets.{calculate_optimal_bitrate, calculate_optimal_fps, set_level}
use rtmpcamera.Quality.Bounds.{
  Within, DividesByZero, calculate_optimal_bitrate-Within, calculate_optimal_fps_cases,
}
use rtmpcamera.Quality.Checks.{
  auto_outcome, check_and_adjust_auto, check_and_adjust_idle, should_send_keyframe-add_keyframe,
  update_bitrate_exact,
}

-- 3 Mbit/s measured, a full buffer and slow packets, with a callback.
abbrev busy : Controller
busy = record create {
  stats = record zero_stats { current_bitrate = 3000000; buffer_health = 7000; latency = 8000 };
  has_callback = true;
}

busy_bitrate : calculate_optimal_bitrate busy ≡ some 2500000
unfolding create calculate_optimal_bitrate
busy_bitrate = refl

busy_drops : should_drop_frame busy ≡ some true
unfolding create should_drop_frame
busy_drops = refl

busy_set_low : Option (ℕ × ℕ)
busy_set_low = do c ← set_level busy low; some (c.config.target_bitrate, c.config.target_fps)

busy_set_low_lem : busy_set_low ≡ some (400000, 15)
unfolding busy_set_low create set_level
busy_set_low_lem = refl

calculate_optimal_bitrate-Within_run : Within 400000 2500000 (calculate_optimal_bitrate busy)
unfolding create
calculate_optimal_bitrate-Within_run = calculate_optimal_bitrate-Within busy (omega arith)

-- One frame a second, each slower to encode than that.
abbrev crawling : Controller
crawling = record create {
  config = record create.config { target_fps = 1 };
  stats = record zero_stats { encoding_time = 1001 };
}

crawling_divides : calculate_optimal_fps crawling ≡ none
unfolding create calculate_optimal_fps
crawling_divides = refl

calculate_optimal_fps_cases_run :
    (DividesByZero crawling × (calculate_optimal_fps crawling ≡ none))
    ⊎ ((¬ DividesByZero crawling) × Within 15 30 (calculate_optimal_fps crawling))
unfolding create
calculate_optimal_fps_cases_run = calculate_optimal_fps_cases crawling (omega arith)

check_and_adjust_auto_example : check_and_adjust 6000 6001 busy ≡ (
    should_decrease_quality (record busy { last_check = 6000 }) >>= λ down.
    some (auto_outcome (record busy { last_check = 6000 }) down))
unfolding create
check_and_adjust_auto_example =
    check_and_adjust_auto 6000 6001 busy refl (omega arith) (omega arith)

-- The overloaded stream is told to send 2.5 Mbit/s.
check_and_adjust_runs :
    check_and_adjust 6000 6001 busy
    ≡ some (targets (record busy { last_check = 6000 }) 2500000 30, high ∷ [])
unfolding create check_and_adjust
check_and_adjust_runs = refl

check_and_adjust_idle_run :
    check_and_adjust 4000 4000 busy ≡ some (record busy { last_check = 0 }, [])
unfolding create
check_and_adjust_idle_run = check_and_adjust_idle 4000 4000 busy (inl (omega arith))

should_send_keyframe-add_keyframe_run :
    should_send_keyframe (u32 (4294967000 + 2500)) (add_keyframe 4294967000 busy) ≡ leb 2000 2500
unfolding create
should_send_keyframe-add_keyframe_run =
    should_send_keyframe-add_keyframe 4294967000 2500 busy (omega arith) (omega arith)

update_bitrate_exact_run :
    let rate = (update_bitrate busy 600000 1000).stats.current_bitrate in
    ((536870 < 600000) ⊎ (rate ≡ 600000 * 8000 / 1000)) × (rate * 1000 < u32_mod)
update_bitrate_exact_run = update_bitrate_exact busy 600000 1000 (omega arith)

-- 600000 bytes in a second are 4.8 Mbit/s; the wrapped product says 505 kbit/s.
update_bitrate_wraps : (update_bitrate busy 600000 1000).stats.current_bitrate ≡ 505032
unfolding update_bitrate
update_bitrate_wraps = refl
