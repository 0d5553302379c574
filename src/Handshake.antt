-- ===== src/Handshake.antt =====
-- rtmp_handshake.c and rtmp_handshake.h: the handshake with digests.
--
-- The digest is the HMAC of a library: a parameter that gives 32 bytes for the bytes before an
-- offset, the key aside; `none` when the library fails. `sends` is whether rtmp_send takes all bytes.
pub mod Digests
pub mod Proven
mod Tests
use rtmpcamera.Prelude.{
  ℕ, zero, suc, ◌+◌, ◌-◌, Bool, true, false, not, ◌&&◌, ◌||◌, Option, none, some, List, [], ◌∷◌,
  ◌++◌, if◌then◌else◌, ◌==◌, ltb, same_bytes, length, take, drop, codes,
}

abbrev pub Bytes : Type 0
Bytes = List ℕ

abbrev pub version : ℕ
version = 3

abbrev pub packet_size : ℕ
packet_size = 1536

abbrev pub digest_size : ℕ
digest_size = 32

-- The key of the player, and of the server.
abbrev pub key_fp : Bytes
key_fp = codes "Genuine Adobe Flash Player 001" ++ 240 ∷ 238 ∷ []

abbrev pub key_fms : Bytes
key_fms = codes "Genuine Adobe Flash Media Server"

-- `rtmp_handshake_ctx`: the packets that are set.
pub record Handshake : Type 0 where
  pub version : ℕ
  pub c1 : Option Bytes
  pub s1 : Option Bytes
  pub c2 : Option Bytes
  pub s2 : Option Bytes
  pub state : ℕ

abbrev empty : Handshake
empty = record { version = 0; c1 = none; s1 = none; c2 = none; s2 = none; state = 0 }

-- rtmp_handshake_init_packet, of 4 bytes of the clock and 1528 random ones.
unfoldable pub init_packet : (clock random : Bytes) → Bytes
init_packet clock random = clock ++ (0 ∷ 0 ∷ 0 ∷ 0 ∷ random)

module _ (hmac : (text key : Bytes) → Option Bytes) where
  -- rtmp_handshake_calculate_digest, of the first `size` bytes.
  unfoldable pub calculate_digest : (bytes : Bytes) → (size : ℕ) → (key : Bytes) → Option Bytes
  calculate_digest bytes size key = hmac (take size bytes) key

  abbrev pub matches : Option Bytes → Bytes → Bool
  matches none found = false
  matches (some digest) found = same_bytes digest found

  -- The loop of rtmp_handshake_find_digest, over `count` offsets from `i` on.
  unfoldable pub find_digest_from : (count i : ℕ) → (bytes key : Bytes) → Option ℕ
  unfolding calculate_digest
  find_digest_from zero i bytes key = none
  find_digest_from (suc n) i bytes key =
      let rest = find_digest_from n (suc i) bytes key in
      if matches (calculate_digest bytes i key) (take digest_size (drop i bytes))
      then some i
      else rest

  -- rtmp_handshake_find_digest; `none` is -1.
  unfoldable pub find_digest : (bytes : Bytes) → (size : ℕ) → (key : Bytes) → Option ℕ
  unfolding find_digest_from
  find_digest bytes size key = find_digest_from (size - digest_size) 0 bytes key

  -- The digest at the packet's end. When the library fails, `memory` is what the digest's bytes are.
  unfoldable pub sign_packet : (packet key memory : Bytes) → Bytes
  unfolding calculate_digest
  sign_packet packet key memory =
      take (packet_size - digest_size) packet
      ++ digest_or (calculate_digest packet (packet_size - digest_size) key)
    where
      digest_or : Option Bytes → Bytes
      digest_or none = memory
      digest_or (some digest) = digest

  -- rtmp_handshake_client: the handshake that is begun, and what was sent.
  unfoldable pub begin_client :
      (clock random memory : Bytes)
      → (sends_version sends_packet : Bool) → Option Handshake × List Bytes
  unfolding init_packet sign_packet
  begin_client clock random memory sends_version sends_packet =
      let c1 = sign_packet (init_packet clock random) key_fp memory in
      let begun = record empty { version = version; c1 = some c1 } in
      if not sends_version
      then (none, (version ∷ []) ∷ [])
      else if not sends_packet
      then (none, (version ∷ []) ∷ c1 ∷ [])
      else (some begun, (version ∷ []) ∷ c1 ∷ [])

  -- rtmp_handshake_server: `received` is the version, if a byte came.
  unfoldable pub begin_server :
      (received : Option ℕ)
      → (clock random memory : Bytes) → (sends_packet : Bool) → Option Handshake × List Bytes
  unfolding init_packet sign_packet
  begin_server none clock random memory sends_packet = (none, [])
  begin_server (some byte) clock random memory sends_packet =
      let s1 = sign_packet (init_packet clock random) key_fms memory in
      let begun = record empty { version = byte; s1 = some s1 } in
      if not (byte == version)
      then (none, [])
      else if not sends_packet
      then (none, s1 ∷ [])
      else (some begun, s1 ∷ [])

  abbrev is_found : Option ℕ → Bool
  is_found none = false
  is_found (some i) = true

  -- `memcmp(ctx->s2, ctx->c1)`; `none`: c1 is NULL.
  abbrev is_echo : Bytes → Option Bytes → Option Bool
  is_echo s2 none = none
  is_echo s2 (some c1) = some (same_bytes s2 (take packet_size c1))

  -- rtmp_handshake_process: the result and the handshake; `none`: it reads from NULL.
  unfoldable pub process_packet :
      (sends : Bool) → (bytes : Bytes) → Handshake → Option (Bool × Handshake)
  unfolding find_digest
  process_packet sends bytes h =
      let packet = take packet_size bytes in
      let got = record h { s1 = some packet } in
      let answered = record got { c2 = some packet } in
      let echoed = record h { s2 = some packet } in
      if h.state == 0
      then (if ltb (length bytes) packet_size
          then some (false, h)
          else if not (is_found (find_digest packet packet_size key_fms))
          then some (false, got)
          else if not sends
          then some (false, answered)
          else some (true, record answered { state = 1 }))
      else if h.state == 1
      then (if ltb (length bytes) packet_size then some (false, h) else elim (is_echo packet h.c1) [
        | none ↦ none
        | some false ↦ some (false, echoed)
        | some true ↦ some (true, record echoed { state = 2 })
      ])
      else some (false, h)

  -- rtmp_handshake_generate_signature
  unfoldable pub generate_signature : (bytes : Bytes) → (size : ℕ) → (key : Bytes) → Option Bytes
  unfolding calculate_digest
  generate_signature bytes size key = calculate_digest bytes size key

  -- rtmp_handshake_verify_signature
  unfoldable pub verify_signature : (bytes : Bytes) → (size : ℕ) → (key signature : Bytes) → Bool
  unfolding calculate_digest
  verify_signature bytes size key signature =
      matches (calculate_digest bytes size key) (take digest_size signature)

-- rtmp_handshake_is_done
unfoldable pub is_done : Option Handshake → Bool
is_done none = false
is_done (some h) = h.state == 2
