-- ===== src/Protocol/Exchange.antt =====
-- rtmp_protocol.c: what rtmp_send_packet sends, what rtmp_read_packet makes of a packet in the chunk
-- format, and how the messages of the server's control reach the client.
use rtmpcamera.Prelude.{
  ℕ, zero, suc, ◌+◌, ◌-◌, ◌%◌, ◌/◌, ◌^◌, ◌≤◌, ◌<◌, ◌≡◌, refl, sym, ◌∙◌, Bool, true, false, some,
  List, [], ◌∷◌, ◌++◌, arith, length, length-append, append-nil, append_assoc, u8, of_be32,
  of_be32-be32, ◌==◌, if◌then◌else◌, Bool-cases, inl, inr,
}
use rtmpcamera.Utils.{Packet}
use rtmpcamera.Chunk.{Header, write_int24}
use rtmpcamera.Chunk.Write.{returned, send_payload, continuation_header, message_header}
use rtmpcamera.Chunk.Wire.{Split, nothing, last, next}
use rtmpcamera.Chunk.Fields.{IsWire}
use rtmpcamera.Chunk.Sending.{Sent, send_payload-Sent}
use rtmpcamera.Protocol.{Bytes, Context}
use rtmpcamera.Protocol.Packets.{
  payload, send_packet, read_packet, read_contents, read_payload, parse_header, header_size,
  count_bytes,
}

module _ (accepts : List Bytes → Bytes → Bool)
    (accepts_all : (sent : List Bytes) (bytes : Bytes) → accepts sent bytes ≡ true) where
  empty-Sent : (size tag : ℕ) (sent : List Bytes) → Sent size tag [] sent (returned true sent)
  empty-Sent size tag sent = ([], nothing, sym (append-nil sent))

  send_packet-step :
      (fuel : ℕ) (p : Packet) (ctx : Context) (e : Bool)
      → ctx.is_open ≡ true
      → (length (payload p) == 0) ≡ e
      → send_packet accepts fuel p ctx ≡ (
          if e
          then returned true ((p.type % 64 ∷ []) ∷ [])
          else send_payload accepts fuel ctx.chunk_size
              (continuation_header p.type)
              (payload p)
              ((p.type % 64 ∷ []) ∷ []))
  unfolding send_packet
  send_packet-step fuel p ctx e o h = rw (o, accepts_all [] (p.type % 64 ∷ []), h) refl

  no-bytes : (bytes : Bytes) → (length bytes == 0) ≡ true → bytes ≡ []
  no-bytes [] h = refl
  no-bytes (b ∷ bytes) h = absurd (ground (arith, h))

  -- When the socket is open and takes every send, the chunk size is positive and the fuel is above
  -- the number of bytes, rtmp_send_packet returns true, having sent one byte with the chunk type 0
  -- and the low 6 bits of the message type, and behind it the payload in chunks: no timestamp,
  -- length, type or stream is ever sent.
  pub send_packet-Sent :
      (fuel : ℕ) (p : Packet) (ctx : Context)
      → ctx.is_open ≡ true
      → 0 < ctx.chunk_size
      → length (payload p) < fuel
      → Sent ctx.chunk_size
          (continuation_header p.type)
          (payload p)
          ((p.type % 64 ∷ []) ∷ [])
          (send_packet accepts fuel p ctx)
  send_packet-Sent fuel p ctx o c h = elim (Bool-cases (length (payload p) == 0)) [
    | inl e ↦
        rw (send_packet-step fuel p ctx true o e, no-bytes (payload p) e)
          (empty-Sent ctx.chunk_size (continuation_header p.type) ((p.type % 64 ∷ []) ∷ []))
    | inr e ↦ rw (send_packet-step fuel p ctx false o e) (
        send_payload-Sent accepts accepts_all fuel ctx.chunk_size (continuation_header p.type)
          (payload p) ((p.type % 64 ∷ []) ∷ []) c h)
  ]

read-last :
    (size n : ℕ) (seen piece : Bytes) (rest : List Bytes)
    → length piece ≡ suc n
    → length piece ≤ size
    → read_payload size (suc n) seen (piece ∷ rest) ≡ (some (seen ++ piece), rest)
unfolding read_payload
read-last size n seen piece [] e h = ground arith
read-last size n seen piece (r ∷ rest) e h = ground arith

read-next :
    (size tag n : ℕ) (seen piece : Bytes) (incoming : List Bytes)
    → length piece ≡ size
    → size < suc n
    → read_payload size (suc n) seen (piece ∷ (tag ∷ []) ∷ incoming)
      ≡ read_payload size (suc n - size) (seen ++ piece) incoming
unfolding read_payload
read-next size tag n seen piece incoming e h = ground arith

-- A payload in chunks of the chunk size is received as a whole.
read-Split :
    (size tag remaining : ℕ) (contents seen : Bytes) (entries rest : List Bytes)
    → remaining ≡ length contents
    → Split size tag contents entries
    → read_payload size remaining seen (entries ++ rest) ≡ (some (seen ++ contents), rest)
unfolding read_payload
read-Split size tag zero contents seen entries rest e nothing = rw (append-nil seen) refl
read-Split size tag (suc n) contents seen entries rest e nothing = absurd (omega arith)
read-Split size tag zero contents seen entries rest e (last h k) = absurd (omega arith)
read-Split size tag (suc n) contents seen entries rest e (last h k) =
    read-last size n seen contents rest (omega arith) k
read-Split size tag zero contents seen entries rest e (next {piece} {behind} q h split) =
    absurd (omega (arith, length-append piece behind))
read-Split size tag (suc n) contents seen entries rest e
      (next {piece} {behind} {entries = more} q h split) =
    let sum = length-append piece behind in
    read-next size tag n seen piece (more ++ rest) q (omega (arith, sum))
    ∙ read-Split size tag (suc n - size) behind (seen ++ piece) more rest (omega (arith, sum)) split
    ∙ rw (append_assoc seen piece behind) refl

-- The packet that a header of type 0 and its contents make.
abbrev pub packet_of : Header → Bytes → Packet
packet_of h contents = record {
  contents = some contents;
  size = h.message_length;
  timestamp = h.timestamp;
  type = h.message_type;
  stream_id = h.message_stream_id;
}

of_be24 : (n : ℕ) → n < 2 ^ 24 → of_be32 0 (u8 (n / 2 ^ 16)) (u8 (n / 2 ^ 8)) (u8 n) ≡ n
of_be24 n h = omega arith

parse-message_header :
    (h : Header) (p : Packet)
    → IsWire h
    → parse_header (message_header h 0) p ≡ record (packet_of h []) { contents = p.contents }
unfolding parse_header message_header write_int24
parse-message_header h p (t, l, k, s) =
    rw (of_be24 h.timestamp t, of_be24 h.message_length l, of_be32-be32 h.message_stream_id s) refl

read-contents :
    (headers tag : ℕ) (h : Header) (contents : Bytes) (p : Packet) (ctx : Context)
    (entries rest : List Bytes)
    → length contents ≡ h.message_length
    → 0 < length contents
    → Split ctx.chunk_size tag contents entries
    → read_contents headers
        (record (packet_of h []) { contents = p.contents })
        ctx
        (entries ++ rest)
      ≡ (true, packet_of h contents, count_bytes (h.message_length + headers) ctx, rest)
unfolding read_contents
read-contents headers tag h contents p ctx entries rest e n split =
    let full : (h.message_length == 0) ≡ false = ground (arith, e, n) in
    rw (full, read-Split ctx.chunk_size tag h.message_length contents [] entries rest (sym e) split)
      refl

eleven : (h : Header) → length (message_header h 0) ≡ 11
unfolding message_header write_int24
eleven h = refl

read-header :
    (basic : ℕ) (h : Header) (p : Packet) (ctx : Context) (incoming : List Bytes)
    → basic < 64
    → IsWire h
    → ctx.is_open ≡ true
    → read_packet p ctx ((basic ∷ []) ∷ message_header h 0 ∷ incoming)
      ≡ read_contents 12 (record (packet_of h []) { contents = p.contents }) ctx incoming
unfolding read_packet
read-header basic h p ctx incoming b w o =
    let full : header_size basic ≡ 12 = ground arith in
    simp (o, full, eleven h, parse-message_header h (record p { type = basic % 64 }) w) refl

-- On an open socket, when a packet that is not empty and whose fields fit the format arrives with
-- a header of type 0 on a chunk stream below 64 and its contents in chunks of the chunk size,
-- rtmp_read_packet returns true and gives the packet that was meant, counts its bytes with the 12
-- of the header, and leaves what comes behind.
pub read_packet-Split :
    (basic tag : ℕ) (h : Header) (contents : Bytes) (p : Packet) (ctx : Context)
    (entries rest : List Bytes)
    → basic < 64
    → IsWire h
    → ctx.is_open ≡ true
    → length contents ≡ h.message_length
    → 0 < length contents
    → Split ctx.chunk_size tag contents entries
    → read_packet p ctx ((basic ∷ []) ∷ message_header h 0 ∷ (entries ++ rest))
      ≡ (true, packet_of h contents, count_bytes (h.message_length + 12) ctx, rest)
read_packet-Split basic tag h contents p ctx entries rest b w o e n split =
    read-header basic h p ctx (entries ++ rest) b w o
    ∙ read-contents 12 tag h contents p ctx entries rest e n split
