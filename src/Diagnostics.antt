-- ===== src/Diagnostics.antt =====
-- rtmp_diagnostics.c and rtmp_diagnostics.h: the log, its statistics and the timings.
--
-- The context is there from rtmp_diagnostic_init to rtmp_diagnostic_shutdown. `none` is a caller that
-- waits for the mutex for ever, and `held` says that a thread waits for the mutex that it holds.
pub mod Timings
pub mod Lifecycle
mod Tests
use rtmpcamera.Prelude.{
  ℕ, zero, suc, ◌+◌, ◌-◌, ◌%◌, ◌^◌, Bool, true, false, not, ◌&&◌, ◌||◌, Option, none, some, List,
  [], ◌∷◌, ◌++◌, if◌then◌else◌, ◌==◌, leb, ltb, length, take, set, u64,
}
use rtmpcamera.Utils.{elapsed}

abbrev pub Bytes : Type 0
Bytes = List ℕ

abbrev pub log_info : ℕ
log_info = 1

abbrev pub log_warning : ℕ
log_warning = 2

abbrev pub log_error : ℕ
log_error = 3

abbrev pub max_timing_operations : ℕ
max_timing_operations = 100

abbrev pub timing_history_size : ℕ
timing_history_size = 50

-- `timing_record_t`
pub record Timing : Type 0 where
  pub operation : Bytes
  pub start_time : ℕ
  pub duration : ℕ

-- An operation that is timed: `timing_ids` and `timing_operations` at one index.
pub record Operation : Type 0 where
  pub id : ℕ
  pub name : Bytes

-- `operations` are the `timing_count` first ones; `logged` are the levels of the calls of the log
-- callback.
pub record Diagnostics : Type 0 where
  pub error_count : ℕ
  pub start_time : ℕ
  pub has_callback : Bool
  pub min_log_level : ℕ
  pub flags : ℕ
  pub history : List Timing
  pub history_index : ℕ
  pub operations : List Operation
  pub held : Bool
  pub logged : List ℕ

abbrev blanks : ℕ → List Timing
blanks zero = []
blanks (suc n) = record { operation = []; start_time = 0; duration = 0 } ∷ blanks n

-- rtmp_diagnostic_init
unfoldable pub init : (now : ℕ) → Diagnostics
init now = record {
  error_count = 0;
  start_time = now;
  has_callback = false;
  min_log_level = log_info;
  flags = 0xFFFFFFFF;
  history = blanks 50;
  history_index = 0;
  operations = [];
  held = false;
  logged = [];
}

-- rtmp_diagnostic_set_callback
unfoldable pub set_callback : Bool → Diagnostics → Option Diagnostics
set_callback callback d = if d.held then none else some (record d { has_callback = callback })

unfoldable pub set_level : ℕ → Diagnostics → Diagnostics
set_level level d = record d { min_log_level = level }

-- rtmp_diagnostic_log
unfoldable pub log : (level : ℕ) → Diagnostics → Option Diagnostics
log level d =
    if ltb level d.min_log_level
    then some d
    else if d.held
    then none
    else some (record d {
      logged = if d.has_callback then d.logged ++ level ∷ [] else d.logged;
      error_count = if leb log_error level then u64 (d.error_count + 1) else d.error_count;
    })

-- rtmp_diagnostic_get_stats: the error count and the uptime.
unfoldable pub get_stats : (now : ℕ) → Diagnostics → Option (ℕ × ℕ)
unfolding elapsed
get_stats now d = if d.held then none else some (d.error_count, elapsed d.start_time now)

-- rtmp_diagnostic_reset_stats
unfoldable pub reset_stats : (now : ℕ) → Diagnostics → Option Diagnostics
reset_stats now d = if d.held then none else some (record d { error_count = 0; start_time = now })

-- rtmp_diagnostic_mark_event
unfoldable pub mark_event : Diagnostics → Option Diagnostics
unfolding log
mark_event d = log log_info d

-- rtmp_diagnostic_start_timing: the id is the time.
unfoldable pub start_timing :
    (operation : Bytes) → (now : ℕ) → Diagnostics → Option (ℕ × Diagnostics)
start_timing operation now d =
    let timed : Operation = record { id = now; name = operation } in
    if leb max_timing_operations (length d.operations)
    then some (0, d)
    else if d.held
    then none
    else some (now, record d { operations = d.operations ++ timed ∷ [] })

-- The first operation of this id, and the others.
abbrev pub find_operation : (id : ℕ) → List Operation → Option (Operation × List Operation)
find_operation id [] = none
find_operation id (o ∷ os) =
    let behind = find_operation id os in
    if o.id == id
    then some (o, os)
    else elim behind [ none ↦ none | some (found, rest) ↦ some (found, o ∷ rest) ]

-- The record in the history, which is a ring.
unfoldable pub record_timing : Operation → (duration : ℕ) → Diagnostics → Diagnostics
record_timing o duration d = record d {
  history =
      set d.history d.history_index
        (record { operation = take 63 o.name; start_time = o.id; duration = duration });
  history_index = (d.history_index + 1) % timing_history_size;
}

-- The end of a call that runs under the mutex: `stuck` is a thread that locks it once more.
pub data Outcome : Type 0 where
  done stuck waits : Diagnostics → Outcome

-- rtmp_diagnostic_end_timing. A long operation is logged with rtmp_log_warning, which locks.
unfoldable pub end_timing : (id now : ℕ) → Diagnostics → Outcome
unfolding record_timing elapsed
end_timing id now d =
    let duration = elapsed id now in
    if id == 0 then done d else if d.held then waits d else elim (find_operation id d.operations) [
      | none ↦ done d
      | some (o, rest) ↦
          let recorded = record_timing o duration d in
          if ltb 100 duration && not (ltb log_warning d.min_log_level)
          then stuck (record recorded { held = true })
          else done (record recorded { operations = rest })
    ]
