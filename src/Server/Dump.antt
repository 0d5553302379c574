-- ===== src/Server/Dump.antt =====
-- rtmp_server_integration.c: the statistics as they are printed.
use rtmpcamera.Prelude.{
  ◌/◌, Option, List, [], ◌∷◌, ◌++◌, if◌then◌else◌, codes, decimal, signed_decimal,
}
use rtmpcamera.Server.{Bytes, Server, Connection}
use rtmpcamera.Server.Queries.{locked, server_state_string, connection_state_string}

abbrev line : (label text : Bytes) → Bytes
line label text = label ++ (text ++ 10 ∷ [])

-- What is printed of a publisher.
unfoldable pub dump_media : Connection → Bytes
unfolding signed_decimal
dump_media c =
    let m = c.metadata in
    line (codes "    Video: ") (
      signed_decimal m.width
      ++ (codes "x"
          ++ (signed_decimal m.height
              ++ (codes " @ " ++ (signed_decimal m.frame_rate ++ codes " fps")))))
    ++ line (codes "    Video Bitrate: ") (signed_decimal (m.video_bitrate / 1024) ++ codes " kbps")
    ++ line (codes "    Audio Bitrate: ") (signed_decimal (m.audio_bitrate / 1024) ++ codes " kbps")
    ++ line (codes "    Dropped Frames: ") (signed_decimal m.dropped_frames)

unfoldable pub dump_connection : Connection → Bytes
unfolding connection_state_string dump_media decimal signed_decimal
dump_connection c =
    line (codes "  Connection ") (signed_decimal c.socket ++ codes ":")
    ++ line (codes "    State: ") (connection_state_string c.state)
    ++ line (codes "    App: ") c.metadata.app_name
    ++ line (codes "    Stream: ") c.metadata.stream_name
    ++ line (codes "    Is Publisher: ") (if c.is_publisher then codes "Yes" else codes "No")
    ++ line (codes "    Bytes In: ") (decimal c.metadata.bytes_in)
    ++ line (codes "    Bytes Out: ") (decimal c.metadata.bytes_out)
    ++ (if c.is_publisher then dump_media c else [])

unfoldable pub dump_connections : List Connection → Bytes
unfolding dump_connection
dump_connections [] = []
dump_connections (c ∷ cs) = dump_connection c ++ dump_connections cs

-- rtmp_server_dump_stats: the bytes that it prints; `none` waits for the mutex for ever.
unfoldable pub dump_stats : Server → Option Bytes
unfolding server_state_string dump_connections signed_decimal
dump_stats s = locked s (
    line (codes "RTMP Server Statistics:") []
    ++ line (codes "  State: ") (server_state_string s.state)
    ++ line (codes "  Port: ") (signed_decimal s.port)
    ++ line (codes "  Connections: ") (signed_decimal s.num_connections)
    ++ dump_connections s.connections)
