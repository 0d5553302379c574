-- ===== src/Diagnostics/Tests.antt =====
-- Runs of rtmp_diagnostics.c on concrete timings, and the theorems at them.
use rtmpcamera.Prelude.{◌≡◌, refl, false, none, some, [], ◌∷◌, arith, codes}
use rtmpcamera.Diagnostics.{Diagnostics, Operation, init, log, start_timing, end_timing, mark_event}
use rtmpcamera.Diagnostics.Lifecycle.{initialize, shutdown, log_fatal, get_timestamp_ms}
use rtmpcamera.Diagnostics.Timings.{Timed, Waiting, start_timing-end_timing, end_timing-deadlock}

abbrev encoding : Operation
encoding = record { id = 40; name = codes "encode" }

abbrev timing : Diagnostics
timing = record (init 1) { operations = encoding ∷ [] }

start_timing-end_timing_run :
    Timed (codes "send") 50 90 timing (start_timing (codes "send") 50 timing)
unfolding init
start_timing-end_timing_run =
    start_timing-end_timing (codes "send") 50 90 timing refl (omega arith) (omega arith, tt)
      (omega arith) (omega arith) (omega arith) (omega arith)

end_timing-deadlock_example : Waiting 3 300 (end_timing 40 200 timing)
unfolding init
end_timing-deadlock_example =
    end_timing-deadlock 40 200 300 3 encoding [] timing refl (omega arith) refl (omega arith)
      (omega arith) (omega arith) (omega arith)

-- An error is counted, an event is not.
log-error :
    (log 3 (init 1) ≡ some (record (init 1) { error_count = 1 }))
    × (mark_event (init 1) ≡ some (init 1))
unfolding log mark_event init
log-error = (refl, refl)

-- A second initialization changes nothing; a shutdown frees the names of what is still timed.
initialize-twice : initialize false 5 (some timing) ≡ (false, some timing)
unfolding initialize
initialize-twice = refl

shutdown-timing : shutdown (some timing) ≡ some (codes "encode" ∷ [], none)
unfolding shutdown init
shutdown-timing = refl

log_fatal-counts : log_fatal (some (init 1)) ≡ some (some (record (init 1) { error_count = 1 }))
unfolding log_fatal init
log_fatal-counts = refl

get_timestamp_ms-first : get_timestamp_ms 12 345678901 ≡ 12345
unfolding get_timestamp_ms
get_timestamp_ms-first = refl
