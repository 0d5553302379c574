-- ===== src/Handshake/Tests.antt =====
-- Runs of rtmp_handshake.c with a digest of zeros, and the theorem at them.
use rtmpcamera.Prelude.{
  ℕ, zero, suc, ◌+◌, ◌≤◌, ◌<◌, ◌≡◌, refl, true, false, Option, none, some, [], ◌∷◌, ◌++◌, arith,
  length, length-take, take, run_all, if◌then◌else◌, ◌==◌,
}
use rtmpcamera.Utils.{zeros}
use rtmpcamera.Handshake.{
  Bytes, Handshake, key_fms, calculate_digest, sign_packet, process_packet, is_done, init_packet,
  key_fp, begin_client, verify_signature, generate_signature,
}
use rtmpcamera.Handshake.Proven.{HasDigest, step, run-begin_client-HasDigest}
use rtmpcamera.Handshake.Digests.{found_at, NoDigest, sign_packet_refused}

-- A digest that exists for texts of 1504 bytes only.
abbrev digest_of : Bytes → Bytes → Option Bytes
digest_of text key = if length text == 1504 then some (zeros 32) else none

not_here : (i : ℕ) (bytes key : Bytes) → i < 1504 → found_at digest_of bytes key i ≡ false
unfolding calculate_digest
not_here i bytes key h = ground (arith, length-take i bytes)

nowhere : (n i : ℕ) (bytes key : Bytes) → i + n ≤ 1504 → NoDigest digest_of n i bytes key
unfolding NoDigest
nowhere zero i bytes key h = tt
nowhere (suc n) i bytes key h =
    (not_here i bytes key (omega arith), nowhere n (suc i) bytes key (omega arith))

abbrev begun : Handshake
begun = record { version = 3; c1 = none; s1 = none; c2 = none; s2 = none; state = 0 }

sign_packet_refused_example :
    (found_at digest_of (sign_packet digest_of (zeros 1536) key_fms []) key_fms 1504 ≡ true)
    × (process_packet digest_of true (sign_packet digest_of (zeros 1536) key_fms []) begun
        ≡ some (false, record begun { s1 = some (sign_packet digest_of (zeros 1536) key_fms []) }))
sign_packet_refused_example =
    sign_packet_refused digest_of true begun (zeros 1536) [] (zeros 32) refl refl refl refl
      (nowhere 1504 0 (sign_packet digest_of (zeros 1536) key_fms []) key_fms (omega arith))

process_packet-short : process_packet digest_of true (1 ∷ []) begun ≡ some (false, begun)
unfolding process_packet
process_packet-short = refl

is_done-begun : is_done (some begun) ≡ false
unfolding is_done
is_done-begun = refl

-- A digest of zeros for the empty text, and the packets of a client with it.
abbrev zero_digest : Bytes → Bytes → Option Bytes
zero_digest text key = some (zeros 32)

abbrev own : Bytes
own = sign_packet zero_digest (init_packet (zeros 4) (zeros 1528)) key_fp []

abbrev finished : Handshake
finished = record {
  version = 3;
  c1 = some own;
  s1 = some (zeros 1536);
  c2 = some (zeros 1536);
  s2 = some own;
  state = 2;
}

process_both :
    run_all
      (step zero_digest)
      ((true, zeros 1536) ∷ (true, own) ∷ [])
      (record { version = 3; c1 = some own; s1 = none; c2 = none; s2 = none; state = 0 })
    ≡ some finished
unfolding run_all step process_packet sign_packet init_packet
process_both = refl

run-begin_client-HasDigest_example :
    HasDigest zero_digest (some (zeros 1536)) × (some own ≡ some (take 1536 own))
unfolding begin_client is_done
run-begin_client-HasDigest_example =
    run-begin_client-HasDigest zero_digest (zeros 4) (zeros 1528) [] true true
      (record { version = 3; c1 = some own; s1 = none; c2 = none; s2 = none; state = 0 }) finished
      ((true, zeros 1536) ∷ (true, own) ∷ []) refl process_both refl

verify-generate : verify_signature zero_digest (1 ∷ 2 ∷ []) 2 (3 ∷ []) (zeros 32) ≡ true
unfolding verify_signature
verify-generate = refl

generate_signature-two :
    generate_signature (λ text key. some (text ++ key)) (1 ∷ 2 ∷ 4 ∷ []) 2 (3 ∷ [])
    ≡ some (1 ∷ 2 ∷ 3 ∷ [])
unfolding generate_signature
generate_signature-two = refl
