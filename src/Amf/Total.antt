-- ===== src/Amf/Total.antt =====
-- The decoders of rtmp_amf.c always answer, and never claim more bytes than there are.
use rtmpcamera.Prelude.{
  ℕ, zero, suc, ◌+◌, ◌-◌, ◌≤◌, ◌<◌, ◌≡◌, length, take, drop, length-drop, arith,
}
use rtmpcamera.Amf.{Bytes, Value, Properties, read_be16}
use rtmpcamera.Amf.Decode.{
  Result, ok, failed, out_of_fuel, decode_number, decode_boolean, decode_string, decode_value,
  decode_properties, decode_object, add_value,
}

-- The run kept within its fuel, and what it reports as read is at most `n` bytes.
abbrev pub Reads {ℓ} : {A : Type ℓ} → ℕ → Result (A × ℕ) → Type 0
Reads n (ok (a, k)) = k ≤ n
Reads n failed = Unit {0}
Reads n out_of_fuel = ⊥

add_value-Reads :
    (n used : ℕ) (name : Bytes) (rest : ℕ → Result (Properties × ℕ)) (r : Result (Value × ℕ))
    → used ≤ n
    → Reads (n - used) r
    → ((k : ℕ) → Reads (n - used - k) (rest k))
    → Reads n (add_value used name rest r)
add_value-Reads n used name rest (ok (v, k)) h hr next = ground (arith, next k)
add_value-Reads n used name rest failed h hr next = h
add_value-Reads n used name rest out_of_fuel h hr next = hr

module _ (decode_array : Bytes → Result (Value × ℕ))
    (array-Reads : (b : Bytes) → Reads (length b) (decode_array b)) where
  mutual
    unfolding decode_value decode_boolean decode_number decode_string

    value-Reads :
        (f : ℕ) (buffer : Bytes)
        → length buffer < f
        → Reads (length buffer) (decode_value decode_array f buffer)
    value-Reads zero buffer h = absurd (omega arith)
    value-Reads (suc f) buffer h =
        ground (arith, properties-Reads f (drop 1 buffer), length-drop 1 buffer, array-Reads buffer)

    properties-Reads :
        (f : ℕ) (buffer : Bytes)
        → length buffer < f
        → Reads (length buffer) (decode_properties decode_array f buffer)
    properties-Reads zero buffer h = absurd (omega arith)
    properties-Reads (suc f) buffer h =
        let used = 2 + read_be16 buffer in
        let behind = drop used buffer in
        let left : length behind ≡ length buffer - used = length-drop used buffer in
        let body : used ≤ length buffer
            → Reads (length buffer) (
                add_value used (take (read_be16 buffer) (drop 2 buffer))
                  (λ n. decode_properties decode_array f (drop n behind))
                  (decode_value decode_array f behind)) =
          λ fits.
            add_value-Reads (length buffer) used _ _ (decode_value decode_array f behind) fits
              (rw left at (value-Reads f behind (omega (arith, left))))
              (λ k.
                rw (length-drop k behind, left) at
                  (properties-Reads f (drop k behind)
                    (omega (arith, left, length-drop k behind)))) in
        ground (arith, body)

  -- If rtmp_amf_decode_array never claims more bytes than its buffer holds, then with fuel above
  -- the buffer's length rtmp_amf_decode_value and rtmp_amf_decode_object answer on every input,
  -- malformed ones included, and never report more bytes read than the buffer holds.
  pub decode_value_total :
      (f : ℕ) (buffer : Bytes)
      → length buffer < f
      → Reads (length buffer) (decode_value decode_array f buffer)
        × Reads (length buffer) (decode_object decode_array f buffer)
  unfolding decode_object
  decode_value_total f buffer h = (
    value-Reads f buffer h,
    ground (arith, properties-Reads f (drop 1 buffer), length-drop 1 buffer),
  )
