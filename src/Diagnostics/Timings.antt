-- ===== src/Diagnostics/Timings.antt =====
-- rtmp_diagnostics.c: the timings, and the log of a long one.
use rtmpcamera.Prelude.{
  ℕ, ◌+◌, ◌-◌, ◌^◌, ◌≤◌, ◌<◌, ◌≡◌, ◌≢◌, true, false, Option, none, some, List, [], ◌∷◌, ◌++◌, arith,
  length,
}
use rtmpcamera.Utils.Perf.{elapsed_exact}
use rtmpcamera.Diagnostics.{
  Bytes, Diagnostics, Operation, Outcome, done, stuck, start_timing, end_timing, record_timing,
  find_operation, log, log_warning, set_callback, get_stats, reset_stats, max_timing_operations,
}

-- No operation has this id.
abbrev pub Unused : (id : ℕ) → List Operation → Type 0
Unused id [] = Unit {0}
Unused id (o ∷ os) = (o.id ≢ id) × Unused id os

find-last :
    (id : ℕ) (name : Bytes) (os : List Operation)
    → Unused id os
    → find_operation id (os ++ record { id = id; name = name } ∷ [])
      ≡ some (record { id = id; name = name }, os)
find-last id name [] u = ground arith
find-last id name (o ∷ os) (n, u) = ground (arith, find-last id name os u)

-- What a start followed by its end leaves behind.
abbrev pub Timed :
    (name : Bytes) → (start now : ℕ) → Diagnostics → Option (ℕ × Diagnostics) → Type 0
Timed name start now d none = ⊥
Timed name start now d (some (id, e)) =
    (id ≡ start)
    × (end_timing id now e
        ≡ done (record_timing (record { id = start; name = name }) (now - start) d))

ends :
    (name : Bytes) (start now : ℕ) (d : Diagnostics)
    → d.held ≡ false
    → Unused start d.operations
    → 0 < start
    → start ≤ now
    → now ≤ start + 100
    → now < 2 ^ 64
    → end_timing start now
        (record d { operations = d.operations ++ record { id = start; name = name } ∷ [] })
      ≡ done (record_timing (record { id = start; name = name }) (now - start) d)
unfolding end_timing record_timing
ends name start now d h u z o l w =
    ground (arith, find-last start name d.operations u, elapsed_exact start now o w)

-- While the mutex is free, with room for an operation and no other one of the same millisecond,
-- an operation of at most 100 ms is recorded in the history with its duration, and the operations
-- are those before.
pub start_timing-end_timing :
    (name : Bytes) (start now : ℕ) (d : Diagnostics)
    → d.held ≡ false
    → length d.operations < max_timing_operations
    → Unused start d.operations
    → 0 < start
    → start ≤ now
    → now ≤ start + 100
    → now < 2 ^ 64
    → Timed name start now d (start_timing name start d)
unfolding start_timing
start_timing-end_timing name start now d h r u z o l w =
    ground (arith, ends name start now d h u z o l w)

-- What the others meet when a thread waits for the mutex that it holds.
abbrev pub Waiting : (level now : ℕ) → Outcome → Type 0
Waiting level now (stuck d) =
    (log level d ≡ none)
    × (set_callback true d ≡ none)
    × (get_stats now d ≡ none)
    × (reset_stats now d ≡ none)
Waiting level now _ = ⊥

-- The end of an operation that took more than 100 ms locks the mutex that it holds, unless warnings are
-- not logged: from then on every log of a level that counts, every question for the statistics and
-- every new callback waits for ever.
pub end_timing-deadlock :
    (id now later level : ℕ) (o : Operation) (rest : List Operation) (d : Diagnostics)
    → d.held ≡ false
    → 0 < id
    → find_operation id d.operations ≡ some (o, rest)
    → id + 100 < now
    → now < 2 ^ 64
    → d.min_log_level ≤ log_warning
    → d.min_log_level ≤ level
    → Waiting level later (end_timing id now d)
unfolding end_timing record_timing log set_callback get_stats reset_stats
end_timing-deadlock id now later level o rest d h z f l w m n =
    ground (arith, elapsed_exact id now (omega arith) w)
