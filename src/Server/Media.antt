-- ===== src/Server/Media.antt =====
-- rtmp_server_integration.c: what the messages of a client make of its connection.
use rtmpcamera.Prelude.{
  ℕ, ◌+◌, ◌^◌, ◌≤◌, ◌<◌, ◌≡◌, Bool, true, false, ◌&&◌, Option, none, some, List, [], ◌∷◌, arith,
  length, length-take, u64, if◌then◌else◌,
}
use rtmpcamera.Server.{Bytes, MessageId, Chunk, Connection, make_connection}
use rtmpcamera.Server.Messages.{
  AmfData, string_data, number_data, other_data, Library, handle_message, handle_connect,
  handle_create_stream, handle_play, handle_publish, handle_video, handle_audio, handle_metadata,
  copy_name,
}
use rtmpcamera.Server.Threads.{handle_messages}

-- The part of the peer: what a message makes of a peer that publishes, or does not. A command that
-- does not decode is ignored.
abbrev pub next_role : Library → Chunk → Bool → Bool
next_role lib chunk publishes = elim (lib.decode chunk.msg_data) [
  | none ↦ publishes
  | some amf ↦ elim chunk.msg_type_id [
    | MessageId.publish ↦ true
    | MessageId.play ↦ false
    | _ ↦ publishes
  ]
]

abbrev pub is_media : MessageId → Bool
is_media MessageId.video = true
is_media MessageId.audio = true
is_media _ = false

-- The bytes of the audio and video messages that come while the peer publishes.
abbrev pub media_bytes : Library → (publishes : Bool) → List (ℕ × Chunk) → ℕ
media_bytes lib publishes [] = 0
media_bytes lib publishes ((now, chunk) ∷ chunks) =
    (if publishes && is_media chunk.msg_type_id then length chunk.msg_data else 0)
    + media_bytes lib (next_role lib chunk publishes) chunks

message-bytes :
    (lib : Library) (callback : Bool) (now : ℕ) (chunk : Chunk) (c : Connection)
    → c.metadata.bytes_in < 2 ^ 64
    → ((handle_message lib callback now chunk c).metadata.bytes_in
        ≡ u64 (
            c.metadata.bytes_in
            + (if c.is_publisher && is_media chunk.msg_type_id then length chunk.msg_data else 0)))
      × ((handle_message lib callback now chunk c).is_publisher
          ≡ next_role lib chunk c.is_publisher)
unfolding handle_message handle_connect handle_create_stream handle_play handle_publish handle_video
    handle_audio handle_metadata
message-bytes lib callback now chunk c h = ground arith

-- The count of received bytes of a connection, below 2^64 before, is behind any messages the one
-- before plus the bytes of the audio and video messages that came while the peer was publishing,
-- modulo 2^64.
pub handle_messages-media_bytes :
    (lib : Library) (callback : Bool) (chunks : List (ℕ × Chunk)) (c : Connection)
    → c.metadata.bytes_in < 2 ^ 64
    → (handle_messages lib callback chunks c).metadata.bytes_in
      ≡ u64 (c.metadata.bytes_in + media_bytes lib c.is_publisher chunks)
unfolding handle_messages
handle_messages-media_bytes lib callback [] c h = omega arith
handle_messages-media_bytes lib callback ((now, chunk) ∷ chunks) c h =
    let next = handle_message lib callback now chunk c in
    let (bytes, role) = message-bytes lib callback now chunk c h in
    let behind = handle_messages-media_bytes lib callback chunks next (omega (arith, bytes)) in
    let total = rw role at behind in omega (arith, total, bytes)

-- The names leave room for their NUL, and the audio fields are those of a tag.
abbrev pub Fits : Connection → Type 0
Fits c =
    (length c.metadata.app_name ≤ 127)
    × (length c.metadata.stream_name ≤ 127)
    × (c.metadata.audio_sample_rate ≤ 3)
    × (c.metadata.audio_channels ≤ 2)

copy_name-length :
    (d : Option AmfData) (name : Bytes) → length name ≤ 127 → length (copy_name d name) ≤ 127
copy_name-length none name h = h
copy_name-length (some (string_data text)) name h = omega (arith, length-take 127 text)
copy_name-length (some (number_data value scaled)) name h = h
copy_name-length (some other_data) name h = h

handle_message-Fits :
    (lib : Library) (callback : Bool) (now : ℕ) (chunk : Chunk) (c : Connection)
    → Fits c
    → Fits (handle_message lib callback now chunk c)
unfolding handle_message handle_connect handle_create_stream handle_play handle_publish handle_video
    handle_audio handle_metadata
handle_message-Fits lib callback now chunk c (a, s, r, n) = grind (arith, copy_name-length)

keeps_Fits :
    (lib : Library) (callback : Bool) (chunks : List (ℕ × Chunk)) (c : Connection)
    → Fits c
    → Fits (handle_messages lib callback chunks c)
unfolding handle_messages
keeps_Fits lib callback [] c f = f
keeps_Fits lib callback ((now, chunk) ∷ chunks) c f =
    keeps_Fits lib callback chunks (handle_message lib callback now chunk c)
      (handle_message-Fits lib callback now chunk c f)

-- Whatever messages a new connection gets, its names stay within 127 bytes, so that their NUL is
-- never overwritten, its sample rate index within 3 and its channels within 2.
pub handle_messages-Fits :
    (lib : Library) (callback : Bool) (chunks : List (ℕ × Chunk)) (id socket now : ℕ)
    → Fits (handle_messages lib callback chunks (make_connection id socket now))
unfolding make_connection
handle_messages-Fits lib callback chunks id socket now =
    keeps_Fits lib callback chunks (make_connection id socket now)
      (omega arith, omega arith, omega arith, omega arith)
