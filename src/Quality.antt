-- ===== src/Quality.antt =====
-- rtmp_quality.c and rtmp_quality.h: the quality controller of the stream.
--
-- A `RTMPQualityController *` is never NULL here but in the two getters that answer a NULL
-- pointer with a default. `rtmp_get_timestamp()` is an argument. `none` stands for undefined
-- behaviour of C: a division by zero, or a `double` cast to `uint32_t` out of range. A product
-- with a decimal constant is the exact quotient (`x * 0.8` is 4x/5), which the double agrees
-- with after truncation or comparison for every 32-bit x. The callback only observes: its
-- calls are returned as the list of the levels that it was given.
pub mod Targets
pub mod Bounds
pub mod Checks
mod Tests
pub mod Adjust
use rtmpcamera.Prelude.{
  ℕ, ◌+◌, ◌*◌, ◌/◌, Bool, true, false, Option, none, some, ◌==◌, if◌then◌else◌, u32,
}

pub data Level : Type 0 where
  low medium high auto : Level

pub Level-discrete : Discrete Level
Level-discrete = hlevel

pub record Config : Type 0 where
  pub level : Level
  pub target_bitrate : ℕ
  pub target_fps : ℕ
  pub keyframe_interval : ℕ
  pub width : ℕ
  pub height : ℕ
  pub adaptive_bitrate : Bool
  pub adaptive_fps : Bool

pub record Stats : Type 0 where
  pub current_bitrate : ℕ
  pub current_fps : ℕ
  pub dropped_frames : ℕ
  pub keyframes_sent : ℕ
  pub buffer_health : ℕ
  pub encoding_time : ℕ
  pub sending_time : ℕ
  pub latency : ℕ

pub record Controller : Type 0 where
  pub config : Config
  pub stats : Stats
  pub last_check : ℕ
  pub last_keyframe : ℕ
  pub has_callback : Bool

abbrev pub low_bitrate : ℕ
low_bitrate = 400000

abbrev pub medium_bitrate : ℕ
medium_bitrate = 1000000

abbrev pub high_bitrate : ℕ
high_bitrate = 2500000

abbrev pub low_fps : ℕ
low_fps = 15

abbrev pub medium_fps : ℕ
medium_fps = 24

abbrev pub high_fps : ℕ
high_fps = 30

abbrev pub quality_check_interval : ℕ
quality_check_interval = 5000

abbrev pub buffer_health_target : ℕ
buffer_health_target = 3000

abbrev pub max_latency : ℕ
max_latency = 5000

abbrev pub zero_stats : Stats
zero_stats = record {
  current_bitrate = 0;
  current_fps = 0;
  dropped_frames = 0;
  keyframes_sent = 0;
  buffer_health = 0;
  encoding_time = 0;
  sending_time = 0;
  latency = 0;
}

-- rtmp_quality_create, once its allocation succeeded
pub create : Controller
create = record {
  config = record {
    level = auto;
    target_bitrate = medium_bitrate;
    target_fps = medium_fps;
    keyframe_interval = 2000;
    width = 1280;
    height = 720;
    adaptive_bitrate = true;
    adaptive_fps = true;
  };
  stats = zero_stats;
  last_check = 0;
  last_keyframe = 0;
  has_callback = false;
}

abbrev pub with_config : Controller → Config → Controller
with_config c g = record c { config = g }

abbrev pub with_stats : Controller → Stats → Controller
with_stats c s = record c { stats = s }

abbrev pub targets : Controller → ℕ → ℕ → Controller
targets c bitrate fps =
    with_config c (record c.config { target_bitrate = bitrate; target_fps = fps })

-- `==` on the enum
abbrev pub level_eq : Level → Level → Bool
level_eq low low = true
level_eq medium medium = true
level_eq high high = true
level_eq auto auto = true
level_eq _ _ = false

pub set_target_bitrate : Controller → ℕ → Controller
set_target_bitrate c bitrate = with_config c (record c.config { target_bitrate = bitrate })

pub set_target_fps : Controller → ℕ → Controller
set_target_fps c fps = with_config c (record c.config { target_fps = fps })

pub set_keyframe_interval : Controller → ℕ → Controller
set_keyframe_interval c interval = with_config c (record c.config { keyframe_interval = interval })

pub set_resolution : Controller → ℕ → ℕ → Controller
set_resolution c w h = with_config c (record c.config { width = w; height = h })

pub enable_adaptive_bitrate : Controller → Bool → Controller
enable_adaptive_bitrate c enable = with_config c (record c.config { adaptive_bitrate = enable })

pub enable_adaptive_fps : Controller → Bool → Controller
enable_adaptive_fps c enable = with_config c (record c.config { adaptive_fps = enable })

pub reset_stats : Controller → Controller
reset_stats c = with_stats c zero_stats

-- `if (!ctrl || !duration) return;`
pub update_bitrate : Controller → ℕ → ℕ → Controller
update_bitrate c bytes duration =
    if duration == 0
    then c
    else with_stats c (record c.stats { current_bitrate = u32 (bytes * 8 * 1000) / duration })

pub update_fps : Controller → ℕ → ℕ → Controller
update_fps c frames duration =
    if duration == 0
    then c
    else with_stats c (record c.stats { current_fps = u32 (frames * 1000) / duration })

pub add_dropped_frame : Controller → Controller
add_dropped_frame c =
    with_stats c (record c.stats { dropped_frames = u32 (c.stats.dropped_frames + 1) })

pub add_keyframe : (now : ℕ) → Controller → Controller
add_keyframe now c = record c {
  stats = record c.stats { keyframes_sent = u32 (c.stats.keyframes_sent + 1) };
  last_keyframe = now;
}

pub update_buffer : Controller → ℕ → Controller
update_buffer c size = with_stats c (record c.stats { buffer_health = size })

pub update_timing : Controller → ℕ → ℕ → Controller
update_timing c encode send =
    with_stats c (record c.stats { encoding_time = encode; sending_time = send })

pub update_latency : Controller → ℕ → Controller
update_latency c latency = with_stats c (record c.stats { latency = latency })

-- The getters with an answer for NULL.
pub get_target_bitrate : Option Controller → ℕ
get_target_bitrate none = medium_bitrate
get_target_bitrate (some c) = c.config.target_bitrate

pub get_target_fps : Option Controller → ℕ
get_target_fps none = medium_fps
get_target_fps (some c) = c.config.target_fps

pub get_stats : Option Controller → Option Stats
get_stats none = none
get_stats (some c) = some c.stats

pub set_callback : Controller → Bool → Controller
set_callback c callback = record c { has_callback = callback }
