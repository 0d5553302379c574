-- ===== src/Amf/LongName.antt =====
-- rtmp_amf_encode_publish of rtmp_amf.c with a name that is too long.
use rtmpcamera.Prelude.{
  ◌+◌, ◌≤◌, ◌<◌, ◌≡◌, ap, [], ◌∷◌, ◌++◌, append_assoc, length, length-append, length-drop,
  length-take, take, drop, none, some, arith, codes,
}
use native.Mathlib.Nat.{add_assoc}
use rtmpcamera.Amf.{Bytes, number, null, write_be16, write_be64, amf_max_string_len}
use rtmpcamera.Amf.Encode.{Out, start, emit, emit_all, encode_string, encode_publish}
use rtmpcamera.Amf.Wire.{wire}
use rtmpcamera.Amf.Emits.{wire_all, Wrote, emit-room, drop-drop_add}
use rtmpcamera.Amf.Commands.{text, encode_string-wire, encode_number-wire, encode_null-wire}

-- The buffer behind a call that wrote `bs`, and behind one that failed.
abbrev wrote : Bytes → Out → Out
wrote bs o = record {
  written = o.written ++ bs;
  memory = drop (length bs) o.memory;
  tmp_size = length bs;
}

abbrev stepped : Out → Out
stepped o = record o {
  written = o.written ++ take o.tmp_size o.memory;
  memory = drop o.tmp_size o.memory;
}

emit-none-room : (o : Out) → o.tmp_size ≤ length o.memory → emit none o ≡ some (stepped o)
unfolding emit
emit-none-room o h = ground arith

encode_string-long : (str : Bytes) → amf_max_string_len < length str → encode_string str ≡ none
unfolding encode_string
encode_string-long str h = ground arith

-- The encoding of three values, a failed call, and one more text.
emit_all-failed :
    (a b c d memory : Bytes)
    → length a + length b + length c + length c + length d ≤ length memory
    → let seen = a ++ (b ++ c) in
      Wrote
        (seen ++ (take (length c) (drop (length seen) memory) ++ d))
        memory
        (emit_all (some a ∷ some b ∷ some c ∷ none ∷ some d ∷ []) (start memory))
unfolding emit_all
emit_all-failed a b c d memory k =
    let o1 = wrote a (start memory) in
    let o2 = wrote b o1 in
    let o3 = wrote c o2 in
    let o4 = stepped o3 in
    let la = length-drop (length a) memory in
    let lb = length-drop (length b) o1.memory in
    let lc = length-drop (length c) o2.memory in
    let seen = a ++ (b ++ c) in
    let kept = take (length c) (drop (length seen) memory) in
    let whole : length a + length b + length c + length c + length d
        ≡ length (seen ++ (kept ++ d)) =
      omega (
        arith,
        length-append a (b ++ c),
        length-append b c,
        length-append seen (kept ++ d),
        length-append kept d,
        length-take (length c) (drop (length seen) memory),
        length-drop (length seen) memory,
      ) in
    rw
      (
        emit-room a (start memory) (omega arith),
        emit-room b o1 (omega (arith, la)),
        emit-room c o2 (omega (arith, la, lb)),
        emit-none-room o3 (omega (arith, la, lb, lc)),
        emit-room d o4 (omega (arith, la, lb, lc, length-drop (length c) o3.memory)),
      )
      (
        simp (append_assoc, drop-drop_add, length-append, add_assoc),
        simp drop-drop_add (ap (λ j. drop j memory) whole),
      )

-- With a stream name above 65535 bytes rtmp_amf_encode_publish still returns 1: the call that
-- fails leaves `tmp_size` at the 1 of the null before it, so that in place of the name the
-- command has the one byte that the caller's buffer held there before.
pub encode_publish_long_name :
    (name memory : Bytes)
    → amf_max_string_len < length name
    → 28 ≤ length memory
    → let seen = wire_all (text (codes "publish") ∷ number 0 ∷ null ∷ []) in
      Wrote
        (seen ++ (take 1 (drop (length seen) memory) ++ wire (text (codes "live"))))
        memory
        (encode_publish name memory)
unfolding encode_publish wire_all wire write_be16 write_be64
encode_publish_long_name name memory h k =
    rw
      (
        encode_string-long name h,
        encode_string-wire (codes "publish") (omega arith),
        encode_string-wire (codes "live") (omega arith),
        encode_number-wire 0,
        encode_null-wire,
      )
      (emit_all-failed (wire (text (codes "publish"))) (wire (number 0)) (wire null)
        (wire (text (codes "live"))) memory (omega arith))
