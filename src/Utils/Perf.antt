-- ===== src/Utils/Perf.antt =====
-- rtmp_utils.c: the measurements of rtmp_perf_start and rtmp_perf_end.
use rtmpcamera.Prelude.{
  same_bytes-take, ℕ, ◌-◌, ◌^◌, ◌≤◌, ◌<◌, ◌≡◌, refl, false, List, [], ◌∷◌, ◌++◌, arith, length,
  take, leb, same_bytes, if◌then◌else◌, lt→ltb, Bool-cases, inl, inr,
}
use rtmpcamera.Utils.{Bytes, PerfEntry, perf_start, perf_end, elapsed, max_perf_entries}

-- No entry has this name.
abbrev pub Unnamed : Bytes → List PerfEntry → Type 0
Unnamed name [] = Unit {0}
Unnamed name (e ∷ es) = (same_bytes e.name name ≡ false) × Unnamed name es

perf_end-last :
    (name : Bytes) (now : ℕ) (e : PerfEntry) (entries : List PerfEntry)
    → Unnamed name entries
    → perf_end name now (entries ++ e ∷ []) ≡ entries ++ perf_end name now (e ∷ [])
unfolding perf_end
perf_end-last name now e [] u = refl
perf_end-last name now e (d ∷ entries) u = ground (arith, perf_end-last name now e entries u.1)

pub elapsed_exact : (start now : ℕ) → start ≤ now → now < 2 ^ 64 → elapsed start now ≡ now - start
unfolding elapsed
elapsed_exact start now h k = omega arith

perf_end-opened :
    (name : Bytes) (start now : ℕ) (stale : PerfEntry)
    → start ≤ now
    → now < 2 ^ 64
    → (let opened = record stale { name = take 63 name; start = start } in
        perf_end name now (opened ∷ [])
        ≡ (if leb (length name) 63
            then record opened { end = now; duration = now - start }
            else opened)
          ∷ [])
unfolding perf_end
perf_end-opened name start now stale h k = elim (Bool-cases (leb (length name) 63)) [
  | inl short ↦ rw (same_bytes-take 63 name, short, elapsed_exact start now h k) refl
  | inr long ↦ rw (same_bytes-take 63 name, long) refl
]

-- With room in the table and no entry of this name, a start and an end measure the time between them
-- exactly when the name has at most 63 bytes; the end of a longer one finds no entry.
pub perf_end-perf_start :
    (name : Bytes) (start now : ℕ) (stale : PerfEntry) (entries : List PerfEntry)
    → Unnamed name entries
    → length entries < max_perf_entries
    → start ≤ now
    → now < 2 ^ 64
    → perf_end name now (perf_start name start stale entries) ≡ (
        let opened = record stale { name = take 63 name; start = start } in
        entries
        ++ (if leb (length name) 63
            then record opened { end = now; duration = now - start }
            else opened)
          ∷ [])
unfolding perf_start
perf_end-perf_start name start now stale entries u r h k =
    let opened = record stale { name = take 63 name; start = start } in
    rw
      (
        lt→ltb (length entries) max_perf_entries r,
        perf_end-last name now opened entries u,
        perf_end-opened name start now stale h k,
      )
      refl
