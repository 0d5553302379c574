-- ===== src/Chunk/Sending.antt =====
-- What rtmp_chunk_write of rtmp_chunk.c sends.
use rtmpcamera.Prelude.{
  ℕ, zero, suc, ◌≤◌, ◌<◌, ◌≡◌, refl, sym, ap, ◌∙◌, Bool, true, false, List, [], ◌∷◌, ◌++◌, length,
  take, drop, length-take, length-drop, take-append-drop, append-nil, append_assoc, arith, drop_all,
  take_append, Bool-cases, ltb, ltb→lt, inl, inr,
}
use rtmpcamera.Chunk.{Bytes}
use rtmpcamera.Chunk.Write.{Outcome, returned, out_of_bounds, out_of_fuel, send_payload}
use rtmpcamera.Chunk.Wire.{Split, nothing, last, next}

-- The loop returned true, having sent a split of `contents` behind what was sent.
abbrev pub Sent : (size tag : ℕ) → Bytes → List Bytes → Outcome → Type 0
Sent size tag contents sent (returned true all) =
    (entries : List Bytes) × Split size tag contents entries × (all ≡ sent ++ entries)
Sent size tag contents sent _ = ⊥

module _ (accepts : List Bytes → Bytes → Bool)
    (accepts_all : (sent : List Bytes) (bytes : Bytes) → accepts sent bytes ≡ true) where
  send_payload-last :
      (f size tag : ℕ) (contents : Bytes) (sent : List Bytes)
      → 0 < length contents
      → length contents ≤ size
      → send_payload accepts (suc f) size tag contents sent
        ≡ send_payload accepts f size tag
            (drop (length contents) contents)
            (sent ++ take (length contents) contents ∷ [])
  unfolding send_payload
  send_payload-last f size tag contents sent h k =
      ground (arith, accepts_all sent (take (length contents) contents))

  send_payload-next :
      (f size tag : ℕ) (contents : Bytes) (sent : List Bytes)
      → size < length contents
      → send_payload accepts (suc f) size tag contents sent
        ≡ send_payload accepts f size tag
            (drop size contents)
            ((sent ++ take size contents ∷ []) ++ (tag ∷ []) ∷ [])
  unfolding send_payload
  send_payload-next f size tag contents sent h = ground (
    arith,
    accepts_all sent (take size contents),
    accepts_all (sent ++ take size contents ∷ []) (tag ∷ []),
  )

  send_payload-zero :
      (size tag : ℕ) (contents : Bytes) (sent : List Bytes)
      → send_payload accepts zero size tag contents sent ≡ out_of_fuel
  unfolding send_payload
  send_payload-zero size tag contents sent = refl

  send_payload-done :
      (f size tag : ℕ) (sent : List Bytes)
      → send_payload accepts (suc f) size tag [] sent ≡ returned true sent
  unfolding send_payload
  send_payload-done f size tag sent = refl

  Sent-next :
      (size tag : ℕ) (contents : Bytes) (sent : List Bytes) (o : Outcome)
      → size < length contents
      → Sent size tag (drop size contents) ((sent ++ take size contents ∷ []) ++ (tag ∷ []) ∷ []) o
      → Sent size tag contents sent o
  Sent-next size tag contents sent (returned true all) h (entries, split, e) =
      let piece = take size contents in
      let cut : Split size tag (piece ++ drop size contents) (piece ∷ (tag ∷ []) ∷ entries) =
        next (omega (arith, length-take size contents)) (omega (arith, length-drop size contents))
          split in
      (
        piece ∷ (tag ∷ []) ∷ entries,
        rw (take-append-drop size contents) at cut,
        e ∙ simp append_assoc refl,
      )
  Sent-next size tag contents sent (returned false all) h e = e
  Sent-next size tag contents sent out_of_bounds h e = e
  Sent-next size tag contents sent out_of_fuel h e = e

  Sent-last :
      (size tag : ℕ) (contents : Bytes) (sent : List Bytes)
      → 0 < length contents
      → length contents ≤ size
      → Sent size tag contents sent (returned true (sent ++ take (length contents) contents ∷ []))
  Sent-last size tag contents sent h k =
      let whole : take (length contents) contents ≡ contents =
        rw append-nil at (take_append contents []) in
      (contents ∷ [], last h k, ap (λ p. sent ++ p ∷ []) whole)

  -- When the socket takes every send, then with a positive chunk size and fuel above the number of
  -- bytes the payload loop returns true, and what it sends is the payload in pieces of the chunk
  -- size, the last one no longer, with the continuation byte between each two.
  pub send_payload-Sent :
      (f size tag : ℕ) (contents : Bytes) (sent : List Bytes)
      → 0 < size
      → length contents < f
      → Sent size tag contents sent (send_payload accepts f size tag contents sent)
  send_payload-Sent zero size tag contents sent p h = absurd (omega arith)
  send_payload-Sent (suc f) size tag [] sent p h =
      rw (send_payload-done f size tag sent) ([], nothing, sym (append-nil sent))
  send_payload-Sent (suc zero) size tag (x ∷ xs) sent p h = absurd (omega arith)
  send_payload-Sent (suc (suc f)) size tag (x ∷ xs) sent p h =
      let contents = x ∷ xs in
      elim (Bool-cases (ltb size (length contents))) [
        | inl more ↦
            let k = ltb→lt size (length contents) more in
            rw (send_payload-next (suc f) size tag contents sent k) (
              Sent-next size tag contents sent _ k (
                send_payload-Sent (suc f) size tag (drop size contents) _ p
                  (omega (arith, length-drop size contents))))
        | inr less ↦
            let k : length contents ≤ size = ground (arith, less) in
            rw
              (
                send_payload-last (suc f) size tag contents sent (omega arith) k,
                drop_all (length contents) contents (omega arith),
                send_payload-done f size tag (sent ++ take (length contents) contents ∷ []),
              )
              (Sent-last size tag contents sent (omega arith) k)
      ]

  -- With a chunk size of 0, which rtmp_chunk_set_size allows, the payload loop of a message that is
  -- not empty never ends: it runs out of any amount of fuel.
  pub send_payload_stuck :
      (f tag : ℕ) (contents : Bytes) (sent : List Bytes)
      → 0 < length contents
      → send_payload accepts f 0 tag contents sent ≡ out_of_fuel
  send_payload_stuck zero tag contents sent h = send_payload-zero 0 tag contents sent
  send_payload_stuck (suc f) tag contents sent h =
      send_payload-next f 0 tag contents sent h ∙ send_payload_stuck f tag contents _ h
