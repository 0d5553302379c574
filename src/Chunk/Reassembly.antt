-- ===== src/Chunk/Reassembly.antt =====
-- Calls of rtmp_chunk_read of rtmp_chunk.c up to a complete message.
use rtmpcamera.Prelude.{
  ℕ, zero, suc, ◌+◌, ◌≤◌, ◌<◌, ◌≡◌, refl, sym, ◌∙◌, true, false, none, some, List, [], ◌∷◌, ◌++◌,
  length, length-append, append_assoc, ==_refl, sub32, arith,
}
use rtmpcamera.Chunk.{Bytes, Header, Context, State, set_chunk, get_or_create}
use rtmpcamera.Chunk.Write.{Packet, message_header}
use rtmpcamera.Chunk.Read.{Outcome, returned, out_of_bounds, chunk_read, read_payload}
use rtmpcamera.Chunk.Wire.{Split, nothing, last, next}
use rtmpcamera.Chunk.Fields.{IsWire}
use rtmpcamera.Chunk.Receiving.{
  within, idle, packet_of, Delivers, payload-more, payload-last, payload-idle, continued, begun,
  resumed,
}

-- The next call, where one left no packet.
abbrev and_then : Outcome → (List Bytes → State → Outcome) → Outcome
and_then (returned true none incoming s) k = k incoming s
and_then outcome k = outcome

-- At most `n` calls, up to the first packet or failure. The uninitialised `type` is 0 each time.
unfoldable pub reads : (n : ℕ) → Header → List Bytes → State → Outcome
reads zero old incoming s = returned true none incoming s
reads (suc n) old incoming s = and_then (chunk_read 0 old incoming s) (reads n old)

set_chunk_same : (i : ℕ) (c : Context) (s : State) → (set_chunk i c s).chunks i ≡ some c
set_chunk_same i c s = rw (==_refl i) refl

Delivers-and_then :
    (packet : Packet) (rest : List Bytes) (o : Outcome) (k : List Bytes → State → Outcome)
    → Delivers packet rest o
    → Delivers packet rest (and_then o k)
Delivers-and_then p r (returned true none incoming s) k d = absurd d
Delivers-and_then p r (returned true (some q) incoming s) k d = d
Delivers-and_then p r (returned false none incoming s) k d = absurd d
Delivers-and_then p r (returned false (some q) incoming s) k d = absurd d
Delivers-and_then p r out_of_bounds k d = absurd d

module _ (h old : Header) (csid size : ℕ) (fits : IsWire h) (low : 2 ≤ csid)
    (high : csid < 64) where
  reads-rest :
      (contents : Bytes) (entries : List Bytes)
      → Split size (192 + csid) contents entries
      → (n d : ℕ) (seen : Bytes) (rest : List Bytes) (s : State) → s.chunk_size ≡ size
      → s.chunks csid ≡ some (within h h.message_length d seen)
      → 0 < length contents
      → length seen + length contents ≡ h.message_length
      → length entries ≤ n
      → Delivers
          (packet_of h (seen ++ contents))
          rest
          (reads n old (((192 + csid) ∷ []) ∷ entries ++ rest) s)
  unfolding reads
  reads-rest _ _ nothing n d seen rest s z e p l k = absurd (omega arith)
  reads-rest _ _ (last g i) zero d seen rest s z e p l k = absurd (omega arith)
  reads-rest _ _ (last {piece} g i) (suc n) d seen rest s z e p l k =
      rw (continued 0 old h d csid seen (piece ∷ rest) s low high e) (
        Delivers-and_then _ _ _ (reads n old)
          (payload-last h h d csid seen piece rest _ fits.1 l (omega arith)))
  reads-rest _ _ (next g i split) zero d seen rest s z e p l k = absurd (omega arith)
  reads-rest _ _ (next {piece} {behind} {entries} g i split) (suc n) d seen rest s z e p l k =
      let after = ((192 + csid) ∷ []) ∷ (entries ++ rest) in
      let sizes = length-append piece behind in
      let less : length seen + length piece < h.message_length = omega (arith, sizes) in
      let s1 = set_chunk csid (within h h.message_length d seen) s in
      let d1 = sub32 h.timestamp h.timestamp in
      let c1 = within h h.message_length d1 (seen ++ piece) in
      let s2 = set_chunk csid c1 s1 in
      rw
        (
          continued 0 old h d csid seen (piece ∷ after) s low high e,
          payload-more h h d csid seen piece after s1 fits.1 less (g ∙ sym z),
        )
        (rw append_assoc at (
          reads-rest behind entries split n d1 (seen ++ piece) rest s2 z (set_chunk_same csid c1 s1)
            i (omega (arith, length-append seen piece)) (omega arith)))

  -- A message from its first piece on: the rest of the call that read its header, and the calls
  -- behind it.
  payload-Delivers :
      (prev : Header) (d n : ℕ) (contents : Bytes) (entries rest : List Bytes) (s : State)
      → Split size (192 + csid) contents entries
      → s.chunk_size ≡ size
      → 0 < length contents
      → length contents ≡ h.message_length
      → length entries ≤ suc n
      → Delivers (packet_of h contents) rest (
          and_then
            (read_payload h csid (within prev h.message_length d []) (entries ++ rest) s)
            (reads n old))
  payload-Delivers prev d n _ _ rest s nothing z p l k = absurd (omega arith)
  payload-Delivers prev d n _ _ rest s (last {piece} g i) z p l k =
      let whole : length {A = ℕ} [] + length piece ≡ h.message_length = omega arith in
      Delivers-and_then _ _ _ (reads n old)
        (payload-last h prev d csid [] piece rest s fits.1 whole (omega arith))
  payload-Delivers prev d n _ _ rest s (next {piece} {behind} {entries} g i split) z p l k =
      let after = ((192 + csid) ∷ []) ∷ (entries ++ rest) in
      let sizes = length-append piece behind in
      let less : length {A = ℕ} [] + length piece < h.message_length = omega (arith, sizes) in
      let d1 = sub32 h.timestamp prev.timestamp in
      let c1 = within h h.message_length d1 piece in
      rw (payload-more h prev d csid [] piece after s fits.1 less (g ∙ sym z)) (
        reads-rest behind entries split n d1 piece rest (set_chunk csid c1 s) z
          (set_chunk_same csid c1 s) i (omega (arith, sizes)) (omega arith))

  Split-length :
      (contents : Bytes) (entries : List Bytes)
      → Split size (192 + csid) contents entries
      → 0 < length contents
      → 0 < length entries
  Split-length _ _ nothing p = absurd (omega arith)
  Split-length _ _ (last g i) p = omega arith
  Split-length _ _ (next g i split) p = omega arith

  reads-begun :
      (prev : Header) (d room read n : ℕ) (contents : Bytes) (entries rest : List Bytes) (s : State)
      → Split size (192 + csid) contents entries
      → s.chunk_size ≡ size
      → get_or_create (s.chunks csid) ≡ idle prev d room read
      → 0 < length contents
      → length contents ≡ h.message_length
      → length entries ≤ n
      → Delivers
          (packet_of h contents)
          rest
          (reads n old ((csid ∷ []) ∷ message_header h 0 ∷ entries ++ rest) s)
  unfolding reads
  reads-begun prev d room read zero contents entries rest s split z e p l k =
      absurd (omega (arith, Split-length contents entries split p))
  reads-begun prev d room read (suc n) contents entries rest s split z e p l k =
      rw
        (
          begun h old prev d room read csid (entries ++ rest) s fits low high e,
          payload-idle h prev d room read csid (entries ++ rest) _,
        )
        (payload-Delivers prev d n contents entries rest _ split z p l (omega arith))

  -- A message that starts with a header of type 3 where none is begun.
  pub reads-repeated :
      (d room read n : ℕ) (contents : Bytes) (entries rest : List Bytes) (s : State)
      → Split size (192 + csid) contents entries
      → s.chunk_size ≡ size
      → get_or_create (s.chunks csid) ≡ idle h d room read
      → 0 < length contents
      → length contents ≡ h.message_length
      → length entries ≤ n
      → Delivers (packet_of h contents) rest (reads n old (((192 + csid) ∷ []) ∷ entries ++ rest) s)
  unfolding reads
  reads-repeated d room read zero contents entries rest s split z e p l k =
      absurd (omega (arith, Split-length contents entries split p))
  reads-repeated d room read (suc n) contents entries rest s split z e p l k =
      rw
        (
          resumed 0 old (idle h d room read) csid (entries ++ rest) s low high e,
          payload-idle h h d room read csid (entries ++ rest) _,
        )
        (payload-Delivers h d n contents entries rest _ split z p l (omega arith))

  -- For stream ids from 2 to 63 and fields that fit the format: when the bytes of a message arrive
  -- as its full header and its payload split in pieces of the chunk size with type 3 headers between
  -- them, the stream has no message begun and the uninitialised `type` is 0, then as many calls of
  -- rtmp_chunk_read as there are entries give the message, every byte of it in order, and take no
  -- entry behind it.
  pub reads-Delivers :
      (prev : Header) (d room read : ℕ) (contents : Bytes) (entries rest : List Bytes) (s : State)
      → Split size (192 + csid) contents entries
      → s.chunk_size ≡ size
      → get_or_create (s.chunks csid) ≡ idle prev d room read
      → 0 < length contents
      → length contents ≡ h.message_length
      → Delivers
          (packet_of h contents)
          rest
          (reads (length entries) old ((csid ∷ []) ∷ message_header h 0 ∷ entries ++ rest) s)
  reads-Delivers prev d room read contents entries rest s split z e p l =
      reads-begun prev d room read (length entries) contents entries rest s split z e p l
        (omega arith)
