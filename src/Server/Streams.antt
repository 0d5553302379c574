-- ===== src/Server/Streams.antt =====
-- rtmp_server_integration.c: the streams that the server says are published.
use rtmpcamera.Prelude.{
  same_bytes-take, ℕ, ◌≡◌, Bool, true, false, ◌&&◌, some, List, [], ◌∷◌, arith, length, leb,
  same_bytes, codes, ◌==◌, if◌then◌else◌,
}
use rtmpcamera.Server.{Bytes, Server, Connection, MessageId, Chunk}
use rtmpcamera.Server.Cleanup.{Outcome, done, has}
use rtmpcamera.Server.Messages.{Library, Amf, string_data, handle_message, handle_publish}
use rtmpcamera.Server.Threads.{connection_round, handle_messages, update_connection}
use rtmpcamera.Server.Queries.{is_publishing, find, is_some}

abbrev pub publishes : (name : Bytes) → Connection → Bool
publishes name c = c.is_publisher && same_bytes c.metadata.stream_name name

abbrev pub listed : (id : ℕ) → List Connection → Bool
listed id [] = false
listed id (c ∷ cs) = if c.id == id then true else listed id cs

find-update :
    (name : Bytes) (b : Bool) (id : ℕ) (f : Connection → Connection) (cs : List Connection)
    → ((c : Connection) → publishes name (f c) ≡ b)
    → is_some (find (publishes name) cs) ≡ false
    → listed id cs ≡ true
    → is_some (find (publishes name) (update_connection id f cs)) ≡ b
find-update name b id f [] g n l = absurd (ground (arith, l))
find-update name b id f (c ∷ cs) g n l = ground (arith, g c, find-update name b id f cs g)

publish-publishes :
    (lib : Library) (callback : Bool) (time now : ℕ) (chunk : Chunk) (name : Bytes) (amf : Amf)
    (c : Connection)
    → chunk.msg_type_id ≡ MessageId.publish
    → lib.decode chunk.msg_data ≡ some amf
    → amf (codes "publishName") ≡ some (string_data name)
    → publishes name
        (record (handle_messages lib callback ((time, chunk) ∷ []) c) { last_recv_time = now })
      ≡ leb (length name) 127
unfolding handle_messages handle_message handle_publish
publish-publishes lib callback time now chunk name amf c t d p =
    ground (arith, same_bytes-take 127 name)

-- The server behind the round, when nothing blocks it.
abbrev pub Publishing : (name : Bytes) → Bool → Outcome → Type 0
Publishing name b (done s) = is_publishing name s ≡ some b
Publishing name b _ = ⊥

-- When nobody publishes a stream and a listed connection of a running server sends a publish
-- command for it that decodes, the server says that the stream is published exactly when its name
-- has at most 127 bytes: a longer one is cut when it is stored and not found again.
pub publish-is_publishing :
    (lib : Library) (id time now : ℕ) (chunk : Chunk) (name : Bytes) (amf : Amf) (s : Server)
    → s.is_running ≡ true
    → s.held ≡ false
    → has id s.live ≡ true
    → listed id s.connections ≡ true
    → chunk.msg_type_id ≡ MessageId.publish
    → lib.decode chunk.msg_data ≡ some amf
    → amf (codes "publishName") ≡ some (string_data name)
    → is_publishing name s ≡ some false
    → Publishing name
        (leb (length name) 127)
        (connection_round lib id now (some ((time, chunk) ∷ [])) s)
unfolding connection_round is_publishing
publish-is_publishing lib id time now chunk name amf s r h own l t d p n =
    let handled : Connection → Connection = λ c.
      record (handle_messages lib s.has_frame_callback ((time, chunk) ∷ []) c) {
        last_recv_time = now;
      } in
    let found =
      find-update name (leb (length name) 127) id handled s.connections
        (λ c. publish-publishes lib s.has_frame_callback time now chunk name amf c t d p)
        (ground (arith, n)) l in
    ground (arith, found)
