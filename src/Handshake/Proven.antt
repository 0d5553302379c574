-- ===== src/Handshake/Proven.antt =====
-- rtmp_handshake.c: what a client whose handshake is done has seen.
use mathlib.Core.Path.{subst}
use rtmpcamera.Prelude.{
  ℕ, ◌≡◌, refl, ◌⊎◌, inl, inr, Bool, true, false, Option, none, some, List, arith, length, take,
  length-take, same_bytes, same_bytes→≡, not, ltb, if◌then◌else◌, ap, ◌==◌, ◌≤◌, OptionAll, run_all,
  run_all-keeps,
}
use rtmpcamera.Handshake.{
  Bytes, Handshake, packet_size, key_fms, key_fp, find_digest, is_found, process_packet,
  sign_packet, init_packet, begin_client, is_done, is_echo,
}

module _ (hmac : (text key : Bytes) → Option Bytes) where
  -- The state behind a call, its result aside.
  abbrev kept : Option (Bool × Handshake) → Option Handshake
  kept none = none
  kept (some (result, next)) = some next

  -- rtmp_handshake_process on a packet, and whether rtmp_send takes the answer.
  unfoldable pub step : Bool × Bytes → Handshake → Option Handshake
  unfolding process_packet
  step (sends, bytes) h = kept (process_packet hmac sends bytes h)

  -- A whole packet in which rtmp_handshake_find_digest finds the server's digest.
  abbrev pub HasDigest : Option Bytes → Type 0
  HasDigest none = ⊥
  HasDigest (some s1) =
      (length s1 ≡ packet_size) × (is_found hmac (find_digest hmac s1 packet_size key_fms) ≡ true)

  -- What each state of a client that sent `c1` says of the packets.
  abbrev IsProven : (c1 : Bytes) → Handshake → Type 0
  IsProven c1 h =
      (h.c1 ≡ some c1)
      × ((h.state ≡ 0)
          ⊎ (HasDigest h.s1
              × ((h.state ≡ 1) ⊎ ((h.state ≡ 2) × (h.s2 ≡ some (take packet_size c1))))))

  first-IsProven :
      (c1 packet : Bytes) (h : Handshake) (short found sends : Bool)
      → h.c1 ≡ some c1
      → h.state ≡ 0
      → (short ≡ false → length packet ≡ packet_size)
      → is_found hmac (find_digest hmac packet packet_size key_fms) ≡ found
      → OptionAll (IsProven c1) (
          kept (
            if short
            then some (false, h)
            else if not found
            then some (false, record h { s1 = some packet })
            else if not sends
            then some (false, record h { s1 = some packet; c2 = some packet })
            else some (true, record h { s1 = some packet; c2 = some packet; state = 1 })))
  first-IsProven c1 packet h true found sends e z l f = (e, inl z)
  first-IsProven c1 packet h false false sends e z l f = (e, inl z)
  first-IsProven c1 packet h false true false e z l f = (e, inl z)
  first-IsProven c1 packet h false true true e z l f = (e, inr ((l refl, f), inl refl))

  second-IsProven :
      (c1 packet : Bytes) (h : Handshake) (short same : Bool)
      → h.c1 ≡ some c1
      → h.state ≡ 1
      → HasDigest h.s1
      → same_bytes packet (take packet_size c1) ≡ same
      → OptionAll (IsProven c1) (
          kept (
            if short then some (false, h) else elim (some same) [
              | none ↦ none
              | some false ↦ some (false, record h { s2 = some packet })
              | some true ↦ some (true, record h { s2 = some packet; state = 2 })
            ]))
  second-IsProven c1 packet h true same e z d f = (e, inr (d, inl z))
  second-IsProven c1 packet h false false e z d f = (e, inr (d, inl z))
  second-IsProven c1 packet h false true e z d f =
      (e, inr (d, inr (refl, ap some (same_bytes→≡ packet (take packet_size c1) f))))

  length-whole : (n : ℕ) (bytes : Bytes) → ltb (length bytes) n ≡ false → length (take n bytes) ≡ n
  length-whole n bytes g =
      let k : n ≤ length bytes = ground (arith, g) in omega (arith, length-take n bytes)

  step-IsProven :
      (c1 : Bytes) (op : Bool × Bytes) (h : Handshake)
      → IsProven c1 h
      → OptionAll (IsProven c1) (step op h)
  unfolding step process_packet
  step-IsProven c1 (sends, bytes) h (e, inl z) =
      let now : (h.state == 0) ≡ true = ground (arith, z) in
      let packet = take packet_size bytes in
      rw now (
        first-IsProven c1 packet h (ltb (length bytes) packet_size)
          (is_found hmac (find_digest hmac packet packet_size key_fms)) sends e z
          (length-whole packet_size bytes) refl)
  step-IsProven c1 (sends, bytes) h (e, inr (d, inl z)) =
      let before : (h.state == 0) ≡ false = ground (arith, z) in
      let now : (h.state == 1) ≡ true = ground (arith, z) in
      let packet = take packet_size bytes in
      let echo : is_echo hmac packet h.c1 ≡ some (same_bytes packet (take packet_size c1)) =
        ap (is_echo hmac packet) e in
      rw (before, now, echo)
        (second-IsProven c1 packet h (ltb (length bytes) packet_size)
          (same_bytes packet (take packet_size c1)) e z d refl)
  step-IsProven c1 (sends, bytes) h (e, inr (d, inr (z, k))) =
      let before : (h.state == 0) ≡ false = ground (arith, z) in
      let between : (h.state == 1) ≡ false = ground (arith, z) in
      rw (before, between) (e, inr (d, inr (z, k)))

  IsProven-done :
      (c1 : Bytes) (h : Handshake)
      → is_done (some h) ≡ true
      → IsProven c1 h
      → HasDigest h.s1 × (h.s2 ≡ some (take packet_size c1))
  unfolding is_done
  IsProven-done c1 h d (e, inl z) = absurd (ground (arith, d, z))
  IsProven-done c1 h d (e, inr (s, inl z)) = absurd (ground (arith, d, z))
  IsProven-done c1 h d (e, inr (s, inr (z, k))) = (s, k)

  begin_client-IsProven :
      (clock random memory : Bytes) (sends_version sends_packet : Bool) (h : Handshake)
      → (begin_client hmac clock random memory sends_version sends_packet).0 ≡ some h
      → IsProven (sign_packet hmac (init_packet clock random) key_fp memory) h
  unfolding begin_client
  begin_client-IsProven clock random memory false sends_packet h e = absurd (ground (arith, e))
  begin_client-IsProven clock random memory true false h e = absurd (ground (arith, e))
  begin_client-IsProven clock random memory true true h e =
      subst (OptionAll (IsProven (sign_packet hmac (init_packet clock random) key_fp memory))) e
        (refl, inl refl)

  -- Whatever packets a client gets after rtmp_handshake_client, and whether its sends work or not:
  -- when rtmp_handshake_is_done says that the handshake is done, the packet that it has for S1 is
  -- whole and has a digest that rtmp_handshake_find_digest finds under the server's key, and the
  -- packet that it has for S2 is the one that it made itself at the beginning.
  pub run-begin_client-HasDigest :
      (clock random memory : Bytes) (sends_version sends_packet : Bool) (begun h : Handshake)
      (packets : List (Bool × Bytes))
      → (begin_client hmac clock random memory sends_version sends_packet).0 ≡ some begun
      → run_all step packets begun ≡ some h
      → is_done (some h) ≡ true
      → HasDigest h.s1
        × (h.s2
            ≡ some (take packet_size (sign_packet hmac (init_packet clock random) key_fp memory)))
  run-begin_client-HasDigest clock random memory sends_version sends_packet begun h packets b r d =
      let c1 = sign_packet hmac (init_packet clock random) key_fp memory in
      IsProven-done c1 h d (
        run_all-keeps step (IsProven c1) (step-IsProven c1) packets begun h
          (begin_client-IsProven clock random memory sends_version sends_packet begun b) r)
