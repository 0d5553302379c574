-- ===== src/Quality/Bounds.antt =====
-- The targets that rtmp_quality.c computes: when they are defined, and in which range.
use rtmpcamera.Prelude.{ℕ, ◌≤◌, ◌<◌, ◌≡◌, ◌⊎◌, inl, inr, Option, none, some, arith, u32_mod}
use rtmpcamera.Quality.{Controller, Stats, low_bitrate, high_bitrate, low_fps, high_fps}
use rtmpcamera.Quality.Targets.{buffer_scaled, calculate_optimal_bitrate, calculate_optimal_fps}

-- The value is defined and lies in the range.
abbrev pub Within : ℕ → ℕ → Option ℕ → Type 0
Within lo hi none = ⊥
Within lo hi (some v) = (lo ≤ v) × (v ≤ hi)

-- The largest bitrate whose 1.2-fold fits 32 bits.
abbrev pub max_scalable : ℕ
max_scalable = 3579139413

buffer_scaled-Within :
    (s : Stats) → s.current_bitrate ≤ max_scalable → Within 0 4294967295 (buffer_scaled s)
unfolding buffer_scaled
buffer_scaled-Within s h = ground arith

-- While the measured bitrate is at most 3579139413, whose 1.2-fold still fits 32 bits, the
-- optimal bitrate is defined and lies between 400000 and 2500000.
pub calculate_optimal_bitrate-Within :
    (c : Controller)
    → c.stats.current_bitrate ≤ max_scalable
    → Within low_bitrate high_bitrate (calculate_optimal_bitrate c)
unfolding calculate_optimal_bitrate
calculate_optimal_bitrate-Within c h = ground (arith, buffer_scaled-Within c.stats)

-- The inputs at which calculate_optimal_fps divides by zero: no target rate, or a target of one
-- frame a second that the first slow-down takes to zero.
abbrev pub DividesByZero : Controller → Type 0
DividesByZero c =
    (c.config.target_fps ≡ 0) ⊎ ((c.config.target_fps ≡ 1) × (1000 < c.stats.encoding_time))

DividesByZero-dec : (c : Controller) → DividesByZero c ⊎ (¬ DividesByZero c)
DividesByZero-dec c = grind arith

-- For a 32-bit target rate, calculate_optimal_fps divides by zero exactly when the target is 0,
-- or is 1 while the encoding time is above 1000; in every other case its result lies between 15
-- and 30.
pub calculate_optimal_fps_cases :
    (c : Controller)
    → c.config.target_fps < u32_mod
    → (DividesByZero c × (calculate_optimal_fps c ≡ none))
      ⊎ ((¬ DividesByZero c) × Within low_fps high_fps (calculate_optimal_fps c))
unfolding calculate_optimal_fps
calculate_optimal_fps_cases c k = elim (DividesByZero-dec c) [
  | inl h ↦ inl (h, ground arith)
  | inr h ↦ inr (h, ground arith)
]
