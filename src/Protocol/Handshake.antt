-- ===== src/Protocol/Handshake.antt =====
-- rtmp_protocol.c: where the handshake's receives go.
use rtmpcamera.Prelude.{
  take_all, ℕ, zero, suc, ◌+◌, ◌-◌, ◌≤◌, ◌<◌, ◌≡◌, refl, ap, ◌∙◌, Option, none, some, List, [], ◌∷◌,
  arith, length, Option-cases, inl, inr, if◌then◌else◌, ◌==◌, ◌*◌, true, false, ◌++◌, length-append,
}
use rtmpcamera.Chunk.Write.{store}
use rtmpcamera.Protocol.{
  handshake_init, Bytes, Context, Peer, Received, fails, overruns, receive_s0s1s2, rtmp_connect,
  finish_handshake, write_c0c1, version, handshake_size,
}

-- The pieces are not empty, and no longer than what remains when they come.
abbrev pub Pieces : (remaining : ℕ) → List Bytes → Type 0
Pieces remaining [] = remaining ≡ 0
Pieces remaining (piece ∷ pieces) =
    (0 < length piece) × (length piece ≤ remaining) × Pieces (remaining - length piece) pieces

abbrev StoreFits : (pos : ℕ) → (bytes buf : Bytes) → Option Bytes → Type 0
StoreFits pos bytes buf none = length buf < pos + length bytes
StoreFits pos bytes buf (some b) = (length b ≡ length buf) × (pos + length bytes ≤ length buf)

store-Fits : (pos : ℕ) (bytes buf : Bytes) → StoreFits pos bytes buf (store pos bytes buf)
unfolding store
store-Fits zero [] buf = (refl, omega arith)
store-Fits zero (b ∷ bs) [] = omega arith
store-Fits zero (b ∷ bs) (x ∷ buf) = ground (arith, store-Fits zero bs buf)
store-Fits (suc pos) bs [] = omega arith
store-Fits (suc pos) bs (x ∷ buf) = ground (arith, store-Fits pos bs buf)

is_empty : (xs : Bytes) → 0 < length xs → (length xs == 0) ≡ false
is_empty xs h = ground arith

receive_step :
    (pos n : ℕ) (buffer piece : Bytes) (pieces : List Bytes)
    → 0 < length piece
    → length piece ≤ suc n
    → receive_s0s1s2 pos (suc n) buffer (piece ∷ pieces) ≡ elim (store pos piece buffer) [
      | none ↦ overruns
      | some b ↦ receive_s0s1s2 (pos + length piece) (suc n - length piece) b pieces
    ]
unfolding receive_s0s1s2
receive_step pos n buffer piece pieces h k =
    let body : Bytes → Received = λ bytes.
      if length bytes == 0 then fails buffer else elim (store pos bytes buffer) [
        | none ↦ overruns
        | some b ↦ receive_s0s1s2 (pos + length bytes) (suc n - length bytes) b pieces
      ] in
    ap body (take_all (suc n) piece k) ∙ rw (is_empty piece h) refl

stored-overruns :
    (pos : ℕ) (buffer piece : Bytes) (next : Bytes → Received) (o : Option Bytes)
    → StoreFits pos piece buffer o
    → ((b : Bytes) → StoreFits pos piece buffer (some b) → next b ≡ overruns)
    → (elim o [ none ↦ overruns | some b ↦ next b ]) ≡ overruns
stored-overruns pos buffer piece next none f g = refl
stored-overruns pos buffer piece next (some b) f g = g b f

receive-overruns :
    (pos remaining : ℕ) (buffer : Bytes) (pieces : List Bytes)
    → length buffer + 1 ≡ pos + remaining
    → 0 < remaining
    → Pieces remaining pieces
    → receive_s0s1s2 pos remaining buffer pieces ≡ overruns
receive-overruns pos zero buffer pieces e r p = absurd (omega arith)
receive-overruns pos (suc n) buffer [] e r p = absurd (omega (arith, p))
receive-overruns pos (suc n) buffer (piece ∷ pieces) e r (h, k, p) =
    receive_step pos n buffer piece pieces h k
    ∙ stored-overruns pos buffer piece
        (λ b. receive_s0s1s2 (pos + length piece) (suc n - length piece) b pieces)
        (store pos piece buffer) (store-Fits pos piece buffer)
        (λ b f.
          receive-overruns (pos + length piece) (suc n - length piece) b pieces (omega (arith, f))
            (omega (arith, f)) p)

finish-overruns :
    (peer : Peer) (ctx : Context) (r : Received) → r ≡ overruns → finish_handshake peer ctx r ≡ none
unfolding finish_handshake
finish-overruns peer ctx r e = rw e refl

written :
    (clock random buffer : Bytes)
    → length clock ≡ 4
    → length random ≡ 1528
    → length buffer ≡ handshake_size * 2
    → (b : Bytes) × (write_c0c1 clock random buffer ≡ some b) × (length b ≡ handshake_size * 2)
unfolding write_c0c1
written clock random buffer c r h =
    let c0c1 : Bytes = version ∷ (clock ++ (0 ∷ 0 ∷ 0 ∷ 0 ∷ random)) in
    let size : length c0c1 ≡ 1537 = omega (arith, length-append clock (0 ∷ 0 ∷ 0 ∷ 0 ∷ random)) in
    elim (Option-cases (store 0 c0c1 buffer)) [
      | inl e ↦ absurd (omega (arith, (rw e at (store-Fits 0 c0c1 buffer))))
      | inr (b, e) ↦ (b, e, (rw e at (store-Fits 0 c0c1 buffer)).0 ∙ h)
    ]

connect-step :
    (peer : Peer) (ctx : Context) (b : Bytes)
    → peer.makes_socket ≡ true
    → peer.parses_host ≡ true
    → peer.connects ≡ true
    → peer.c0c1 ≡ true
    → write_c0c1 peer.clock peer.random ctx.handshake_buffer ≡ some b
    → receive_s0s1s2 0 (handshake_size * 2 + 1) b peer.pieces ≡ overruns
    → rtmp_connect peer ctx ≡ none
unfolding rtmp_connect
connect-step peer ctx b s p c w e o =
    let begun = record ctx { is_open = true; state = handshake_init; handshake_buffer = b } in
    rw (s, p, c, e, w) (finish-overruns peer begun _ o)

-- rtmp_connect overruns the handshake buffer by one byte whenever a server answers in full: the 3073
-- bytes of S0, S1 and S2 are received into its 3072 bytes, in whatever pieces they come. It follows
-- a socket, an address, a connection and a first send that all succeed.
pub rtmp_connect-overruns :
    (peer : Peer) (ctx : Context)
    → peer.makes_socket ≡ true
    → peer.parses_host ≡ true
    → peer.connects ≡ true
    → peer.c0c1 ≡ true
    → length peer.clock ≡ 4
    → length peer.random ≡ 1528
    → length ctx.handshake_buffer ≡ handshake_size * 2
    → Pieces (handshake_size * 2 + 1) peer.pieces
    → rtmp_connect peer ctx ≡ none
rtmp_connect-overruns peer ctx s p c w k r h pieces =
    let (b, e, size) = written peer.clock peer.random ctx.handshake_buffer k r h in
    connect-step peer ctx b s p c w e
      (receive-overruns 0 (handshake_size * 2 + 1) b peer.pieces (omega arith) (omega arith) pieces)
