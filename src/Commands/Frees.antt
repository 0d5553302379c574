-- ===== src/Commands/Frees.antt =====
-- rtmp_commands.c: what rtmp_command_process does with a message, and what it frees.
use rtmpcamera.Prelude.{
  ℕ, ◌+◌, ◌≡◌, refl, inl, inr, true, false, [], ◌∷◌, ◌++◌, length, drop, ltb, ◌==◌, if◌then◌else◌,
  arith, Bool-cases,
}
use rtmpcamera.Amf.{Bytes}
use rtmpcamera.Amf.Decode.{ok, failed, decode_string, decode_number}
use rtmpcamera.Commands.{to, unless_null, create, destroy}
use rtmpcamera.Commands.Decode.{
  Locals, decode, decode_name, decode_transaction, decode_object, decode_args, decode_amf_object,
}
use rtmpcamera.Commands.Process.{handle, process, process_with}

decode_string-nonempty :
    (buffer name : Bytes) (n : ℕ)
    → decode_string buffer ≡ ok (name, n)
    → (length buffer == 0) ≡ false
unfolding decode_string
decode_string-nonempty buffer name n e = ground arith

module _ (of_double : ℕ → ℕ) (locals : Locals) where
  -- A message that begins with a name that decodes, with no number behind it: rtmp_command_process returns 0
  -- and passes the name to rtmp_free twice.
  pub process-frees_twice :
      (buffer name : Bytes) (n : ℕ)
      → decode_string buffer ≡ ok (name, n)
      → decode_number (drop n buffer) ≡ failed
      → ((process of_double locals true buffer).result ≡ false)
        × ((process of_double locals true buffer).freed ≡ to name ∷ to name ∷ [])
  unfolding process process_with decode decode_name decode_transaction create destroy
  process-frees_twice buffer name n e f =
      rw (e, f, decode_string-nonempty buffer name n e) (refl, refl)

  -- A message with a name and a number: what the locals hold is freed behind the name, unless it is NULL.
  pub process-frees_locals :
      (buffer name : Bytes) (n bits read : ℕ)
      → decode_string buffer ≡ ok (name, n)
      → decode_number (drop n buffer) ≡ ok (bits, read)
      → ((process of_double locals true buffer).result ≡ false)
        × ((process of_double locals true buffer).freed
            ≡ to name ∷ unless_null locals.command_object
              ++ (if ltb (n + read + read) (length buffer)
                  then unless_null locals.optional_args
                  else []))
  unfolding process process_with decode decode_name decode_transaction decode_object decode_args
      decode_amf_object handle create destroy
  process-frees_locals buffer name n bits read e f =
      elim (Bool-cases (ltb (n + read + read) (length buffer))) [
        | inl l ↦ rw (e, f, l, decode_string-nonempty buffer name n e) (refl, refl)
        | inr g ↦ rw (e, f, g, decode_string-nonempty buffer name n e) (refl, ground arith)
      ]
