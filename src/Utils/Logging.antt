-- ===== src/Utils/Logging.antt =====
-- rtmp_utils.c: the log, the clock, and the release of packets and buffers.
use rtmpcamera.Prelude.{
  ℕ, ◌+◌, ◌*◌, ◌/◌, Bool, true, Option, none, some, List, [], ◌∷◌, ◌++◌, if◌then◌else◌, ltb, codes,
  decimal, u32,
}
use rtmpcamera.Utils.{Bytes, Packet, PerfEntry}

-- `RTMPLogLevel`
pub data LogLevel : Type 0 where
  error warning info debug : LogLevel

-- The number of a level in the enumeration.
abbrev pub rank : LogLevel → ℕ
rank error = 0
rank warning = 1
rank info = 2
rank debug = 3

-- rtmp_set_log_level and rtmp_get_log_level, on `current_log_level`.
unfoldable pub set_log_level : LogLevel → LogLevel → LogLevel
set_log_level level current = level

unfoldable pub get_log_level : LogLevel → LogLevel
get_log_level current = current

-- The name that is printed in front.
unfoldable pub level_name : LogLevel → Bytes
level_name error = codes "ERROR"
level_name warning = codes "WARN"
level_name info = codes "INFO"
level_name debug = codes "DEBUG"

-- rtmp_log: what it prints of the formatted text.
unfoldable pub log : (level : LogLevel) → (text : Bytes) → (current : LogLevel) → Bytes
unfolding level_name
log level text current =
    if ltb (rank current) (rank level)
    then []
    else codes "[RTMP-" ++ (level_name level ++ (codes "] " ++ (text ++ 10 ∷ [])))

-- rtmp_get_timestamp, of the time that gettimeofday gives.
unfoldable pub get_timestamp : (seconds microseconds : ℕ) → ℕ
get_timestamp seconds microseconds = u32 (seconds * 1000 + microseconds / 1000)

-- rtmp_sleep_ms: the microseconds that usleep gets.
unfoldable pub sleep_ms : (ms : ℕ) → ℕ
sleep_ms ms = u32 (ms * 1000)

-- rtmp_is_network_reachable
unfoldable pub is_network_reachable : Bool
is_network_reachable = true

abbrev unless_null : Option Bytes → List Bytes
unless_null none = []
unless_null (some bytes) = bytes ∷ []

-- rtmp_buffer_free: what it passes to `free`.
unfoldable pub buffer_free : Option Bytes → List Bytes
buffer_free buffer = unless_null buffer

-- rtmp_packet_free: what it passes to `free` before the packet itself.
unfoldable pub packet_free : Packet → List Bytes
packet_free p = unless_null p.contents

-- The lines of rtmp_perf_print_stats between its first and its last.
unfoldable pub perf_lines : List PerfEntry → Bytes
unfolding decimal
perf_lines [] = []
perf_lines (e ∷ entries) =
    e.name
    ++ (codes ": " ++ (decimal e.duration ++ (codes " microseconds" ++ (10 ∷ perf_lines entries))))

-- rtmp_perf_print_stats
unfoldable pub perf_print_stats : List PerfEntry → Bytes
unfolding perf_lines
perf_print_stats entries =
    10 ∷ codes "=== Performance Statistics ==="
    ++ (10 ∷ perf_lines entries ++ (codes "===========================" ++ 10 ∷ []))
