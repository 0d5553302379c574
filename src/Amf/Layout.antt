-- ===== src/Amf/Layout.antt =====
-- How the bytes of numbers, texts and names lie in a buffer: the facts about rtmp_amf.c behind the
-- round trip of its decoders.
use rtmpcamera.Prelude.{
  ℕ, suc, ◌+◌, ◌≤◌, ◌<◌, ◌^◌, ◌≡◌, refl, sym, ◌∙◌, ◌≢◌, ap, [], ◌∷◌, ◌++◌, length, length-append,
  take, drop, take_append, drop_append, false, arith,
}
use rtmpcamera.Amf.{Bytes, read_be16, read_be64, write_be16, write_be64, amf_max_string_len}
use rtmpcamera.Amf.Decode.{ok, decode_number, decode_string, at, at_end}

pub read_be16-write_be16 : (n : ℕ) (rest : Bytes) → n < 65536 → read_be16 (write_be16 n ++ rest) ≡ n
unfolding read_be16 write_be16
read_be16-write_be16 n rest h = omega arith

pub read_be64-write_be64 :
    (n : ℕ) (rest : Bytes) → n < 2 ^ 64 → read_be64 (write_be64 n ++ rest) ≡ n
unfolding read_be64 write_be64
read_be64-write_be64 n rest h = omega arith

pub length-write_be16 : (n : ℕ) → length (write_be16 n) ≡ 2
unfolding write_be16
length-write_be16 n = refl

pub length-write_be64 : (n : ℕ) → length (write_be64 n) ≡ 8
unfolding write_be64
length-write_be64 n = refl

pub decode_number-wire :
    (bits : ℕ) (rest : Bytes)
    → bits < 2 ^ 64
    → decode_number (0 ∷ write_be64 bits ++ rest) ≡ ok (bits, 9)
unfolding decode_number write_be64
decode_number-wire bits rest h = ground (arith, read_be64-write_be64 bits rest h)

pub decode_string-wire :
    (str rest : Bytes)
    → length str ≤ amf_max_string_len
    → decode_string (2 ∷ write_be16 (length str) ++ (str ++ rest)) ≡ ok (str, 3 + length str)
unfolding decode_string write_be16
decode_string-wire str rest h = ground (
  arith,
  read_be16-write_be16 (length str) (str ++ rest),
  take_append str rest,
  length-append str rest,
)

pub at_end-named :
    (name behind : Bytes)
    → length name ≤ amf_max_string_len
    → at behind 0 ≢ 9
    → at_end (write_be16 (length name) ++ (name ++ behind)) ≡ false
unfolding write_be16
at_end-named [] behind h k = ground arith
at_end-named (c ∷ name) behind h k = ground arith

module _ (n : ℕ) (name behind : Bytes) where
  pub take-name : take (length name) (drop 2 (write_be16 n ++ (name ++ behind))) ≡ name
  unfolding write_be16
  take-name = take_append name behind

  pub drop-name : drop (2 + length name) (write_be16 n ++ (name ++ behind)) ≡ behind
  unfolding write_be16
  drop-name =
      let two : suc (suc (length name)) ≡ 2 + length name = omega arith in
      ap (λ k. drop k (write_be16 n ++ (name ++ behind))) (sym two) ∙ drop_append name behind

  pub length-named : length (write_be16 n ++ (name ++ behind)) ≡ 2 + length name + length behind
  unfolding write_be16
  length-named = omega (arith, length-append name behind)
