-- ===== src/Protocol/Announced.antt =====
-- rtmp_server_integration.c and rtmp_protocol.c together: the chunk size and the window that the server
-- announces, and the client that handles the messages.
use rtmpcamera.Prelude.{
  ℕ, ◌<◌, ◌≡◌, refl, some, List, [], ◌∷◌, ◌++◌, arith, length, u32_mod, be32, of_be32-be32,
}
use rtmpcamera.Utils.{Packet}
use rtmpcamera.Server.{MessageId, Chunk, Connection, Server}
use rtmpcamera.Server.Messages.{response}
use rtmpcamera.Server.Queries
use rtmpcamera.Protocol.{Context, set_chunk_size}
use rtmpcamera.Protocol.Packets.{handle_packet, handle_control_message}

-- The numbers of the message types, of which no file defines all.
module _ (number : MessageId → ℕ) where
  -- The packet of a chunk whose bytes arrive.
  abbrev pub arrived : Chunk → Packet
  arrived chunk = record {
    contents = some chunk.msg_data;
    size = length chunk.msg_data;
    timestamp = chunk.timestamp;
    type = number chunk.msg_type_id;
    stream_id = chunk.msg_stream_id;
  }

  -- Each connection has sent one chunk more, which turns the client `before` into `after`.
  pub Announced : (before after : Context) → (old new : List Connection) → Type 0
  Announced before after [] [] = Unit {0}
  Announced before after (c ∷ cs) (d ∷ ds) =
      ((chunk : Chunk) × (d.sent ≡ c.sent ++ chunk ∷ [])
        × (handle_packet (arrived chunk) before ≡ some after))
      × Announced before after cs ds
  Announced before after _ _ = ⊥

  send_to_all-Announced :
      (chunk : Chunk) (before after : Context) (cs : List Connection)
      → handle_packet (arrived chunk) before ≡ some after
      → Announced before after cs (Queries.send_to_all chunk cs)
  unfolding Announced
  send_to_all-Announced chunk before after [] h = tt
  send_to_all-Announced chunk before after (c ∷ cs) h =
      ((chunk, refl, h), send_to_all-Announced chunk before after cs h)

  handle-chunk_size :
      (size : ℕ) (ctx : Context)
      → number MessageId.set_chunk_size ≡ 1
      → size < u32_mod
      → handle_packet (arrived (response MessageId.set_chunk_size 0 (be32 size))) ctx
        ≡ some (record ctx { chunk_size = size })
  unfolding handle_packet handle_control_message set_chunk_size
  handle-chunk_size size ctx n h = simp (n, of_be32-be32 size h) refl

  new-connections :
      (size : ℕ) (s t : Server)
      → Queries.set_chunk_size size s ≡ some t
      → t.connections
        ≡ Queries.send_to_all (response MessageId.set_chunk_size 0 (be32 size)) s.connections
  unfolding Queries.set_chunk_size
  new-connections size s t e = ground (arith, e)

  -- When rtmp_server_set_chunk_size returns, it has sent every connection one message more, and a
  -- client of rtmp_protocol.c that handles it then has the announced chunk size, and is otherwise as
  -- before, for every size of 32 bits, if the message's type has the number 1.
  pub set_chunk_size-handle_packet :
      (size : ℕ) (s t : Server) (ctx : Context)
      → number MessageId.set_chunk_size ≡ 1
      → size < u32_mod
      → Queries.set_chunk_size size s ≡ some t
      → Announced ctx (record ctx { chunk_size = size }) s.connections t.connections
  set_chunk_size-handle_packet size s t ctx n h e = rw (new-connections size s t e) (
      send_to_all-Announced (response MessageId.set_chunk_size 0 (be32 size)) ctx
        (record ctx { chunk_size = size }) s.connections (handle-chunk_size size ctx n h))
