-- ===== src/Diagnostics/Lifecycle.antt =====
-- rtmp_diagnostics.c: the context from rtmp_diagnostic_init to rtmp_diagnostic_shutdown, and the calls of
-- the log for each level.
--
-- `none` in a `Global` is a NULL `diag_ctx`; an outer `none` is a caller that waits for ever.
use rtmpcamera.Prelude.{
  ℕ, ◌+◌, ◌*◌, ◌/◌, u64, Bool, true, false, Option, none, some, List, [], map, if◌then◌else◌,
}
use rtmpcamera.Diagnostics.{
  Bytes, Diagnostics, Operation, init, log, log_info as info_level, log_warning as warning_level,
  log_error as error_level,
}

abbrev pub Global : Type 0
Global = Option Diagnostics

abbrev pub debug_level : ℕ
debug_level = 0

abbrev pub fatal_level : ℕ
fatal_level = 4

-- rtmp_diagnostic_init, with the context that may be there.
unfoldable pub initialize : (allocates : Bool) → (now : ℕ) → Global → Bool × Global
unfolding init
initialize allocates now (some d) = (false, some d)
initialize false now none = (false, none)
initialize true now none = (true, some (init now))

-- rtmp_diagnostic_shutdown: the names that it frees.
unfoldable pub shutdown : Global → Option (List Bytes × Global)
shutdown none = some ([], none)
shutdown (some d) =
    if d.held then none else some (map (λ (o : Operation). o.name) d.operations, none)

-- A call that returns at once without a context.
abbrev pub guarded : (Diagnostics → Option Diagnostics) → Global → Option Global
guarded call none = some none
guarded call (some d) = elim (call d) [ none ↦ none | some e ↦ some (some e) ]

-- rtmp_diagnostic_set_flags
unfoldable pub set_flags : (flags : ℕ) → Global → Global
set_flags flags none = none
set_flags flags (some d) = some (record d { flags = flags })

-- `RTMP_LOG_DEBUG` and `RTMP_LOG_FATAL` are 0 and 4.
unfoldable pub log_debug : Global → Option Global
unfolding log
log_debug = guarded (log debug_level)

unfoldable pub log_info : Global → Option Global
unfolding log
log_info = guarded (log info_level)

unfoldable pub log_warning : Global → Option Global
unfolding log
log_warning = guarded (log warning_level)

unfoldable pub log_error : Global → Option Global
unfolding log
log_error = guarded (log error_level)

unfoldable pub log_fatal : Global → Option Global
unfolding log
log_fatal = guarded (log fatal_level)

-- get_timestamp_ms, of the time that clock_gettime gives.
unfoldable pub get_timestamp_ms : (seconds nanoseconds : ℕ) → ℕ
get_timestamp_ms seconds nanoseconds = u64 (seconds * 1000 + nanoseconds / 1000000)
