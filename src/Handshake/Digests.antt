-- ===== src/Handshake/Digests.antt =====
-- rtmp_handshake.c: where the digests are put, and where they are looked for.
use rtmpcamera.Prelude.{
  take_all, ℕ, zero, suc, ◌-◌, ◌≡◌, refl, Bool, true, false, Option, none, some, arith, length,
  take, drop, length-take, length-append, ◌++◌, sym, ap, ◌∙◌, take_append, drop_append,
  same_bytes_refl,
}
use rtmpcamera.Handshake.{
  Bytes, Handshake, packet_size, digest_size, key_fms, calculate_digest, matches, find_digest,
  find_digest_from, process_packet, sign_packet,
}

module _ (hmac : (text key : Bytes) → Option Bytes) where
  -- The digest of the bytes before the offset stands at the offset.
  abbrev pub found_at : (bytes key : Bytes) → ℕ → Bool
  found_at bytes key i =
      matches hmac (calculate_digest hmac bytes i key) (take digest_size (drop i bytes))

  -- At none of `count` offsets from `from` on.
  unfoldable pub NoDigest : (count from : ℕ) (bytes key : Bytes) → Type 0
  NoDigest zero from bytes key = Unit {0}
  NoDigest (suc n) from bytes key =
      (found_at bytes key from ≡ false) × NoDigest n (suc from) bytes key

  find-none :
      (n i : ℕ) (bytes key : Bytes)
      → NoDigest n i bytes key
      → find_digest_from hmac n i bytes key ≡ none
  unfolding find_digest_from NoDigest
  find-none zero i bytes key h = refl
  find-none (suc n) i bytes key (h, k) = rw (h, find-none n (suc i) bytes key k) refl

  find_digest-none :
      (bytes key : Bytes)
      → NoDigest (packet_size - digest_size) 0 bytes key
      → find_digest hmac bytes packet_size key ≡ none
  unfolding find_digest
  find_digest-none bytes key d = find-none (packet_size - digest_size) 0 bytes key d

  -- The signed packet, when the library succeeds.
  signed_as :
      (packet memory digest : Bytes)
      → hmac (take (packet_size - digest_size) packet) key_fms ≡ some digest
      → sign_packet hmac packet key_fms memory ≡ take (packet_size - digest_size) packet ++ digest
  unfolding sign_packet calculate_digest
  signed_as packet memory digest d = rw d refl

  found-end :
      (start digest : Bytes)
      → length start ≡ packet_size - digest_size
      → length digest ≡ digest_size
      → hmac start key_fms ≡ some digest
      → found_at (start ++ digest) key_fms (packet_size - digest_size) ≡ true
  unfolding calculate_digest
  found-end start digest s l d =
      simp
        (
          sym s,
          take_append start digest,
          drop_append start digest,
          d,
          take_all digest_size digest (omega arith),
          same_bytes_refl digest,
        )
        refl

  refused :
      (sends : Bool) (h : Handshake) (bytes : Bytes)
      → h.state ≡ 0
      → length bytes ≡ packet_size
      → NoDigest (packet_size - digest_size) 0 bytes key_fms
      → process_packet hmac sends bytes h ≡ some (false, record h { s1 = some bytes })
  unfolding process_packet
  refused sends h bytes z e d =
      rw (take_all packet_size bytes (omega arith), z, e, find_digest-none bytes key_fms d) refl

  -- When the library gives a digest of 32 bytes, it stands at the end of the signed packet, where
  -- rtmp_handshake_find_digest does not look: the loop stops one offset before. Unless an earlier
  -- offset matches as well, a client in its first state refuses the packet.
  pub sign_packet_refused :
      (sends : Bool) (h : Handshake) (packet memory digest : Bytes)
      → h.state ≡ 0
      → length packet ≡ packet_size
      → hmac (take (packet_size - digest_size) packet) key_fms ≡ some digest
      → length digest ≡ digest_size
      → NoDigest (packet_size - digest_size) 0 (sign_packet hmac packet key_fms memory) key_fms
      → (found_at (sign_packet hmac packet key_fms memory) key_fms (packet_size - digest_size)
          ≡ true)
        × (process_packet hmac sends (sign_packet hmac packet key_fms memory) h
            ≡ some (false, record h { s1 = some (sign_packet hmac packet key_fms memory) }))
  sign_packet_refused sends h packet memory digest z e d l n =
      let start = take (packet_size - digest_size) packet in
      let size : length start ≡ packet_size - digest_size =
        omega (arith, length-take (packet_size - digest_size) packet) in
      let signed = signed_as packet memory digest d in
      (
        rw signed (found-end start digest size l d),
        refused sends h (sign_packet hmac packet key_fms memory) z
            (ap length signed ∙ omega (arith, length-append start digest)) n,
      )
