-- ===== src/Stream/Control.antt =====
-- rtmp_stream.c: connecting, publishing and disconnecting.
use rtmpcamera.Prelude.{◌+◌, Bool, true, false, not, ◌&&◌, Option, none, some, if◌then◌else◌, take}
use rtmpcamera.Stream.{
  Bytes, Context, Stream, State, idle, connecting, publishing, closed, is_idle, notify,
  empty_buffer,
}
use rtmpcamera.Stream.Url.{Address, parse, tc_url_of}
use rtmpcamera.Stream.Metadata.{Link, announce}

abbrev drop_link : Stream → Stream
drop_link s = record s { disconnects = s.disconnects + 1 }

-- rtmp_stream_connect on a parsed URL: what rtmp_connect and rtmp_send_connect return.
unfoldable pub connect_to : Address → (connects sends : Bool) → Stream → Bool × Stream
connect_to address connects sends s =
    let begun = record s {
      state = connecting;
      stream_name = take 255 address.stream_name;
      app = take 127 address.app;
      tc_url = tc_url_of address;
    } in
    if not connects
    then (false, record begun { state = idle })
    else if not sends
    then (false, record (drop_link begun) { state = idle })
    else (true, begun)

-- rtmp_stream_connect
unfoldable pub connect : (url : Bytes) → (connects sends : Bool) → Stream → Bool × Stream
unfolding connect_to
connect url connects sends s = try (parse url)
  where
    try : Option Address → Bool × Stream
    try none = (false, s)
    try (some address) = connect_to address connects sends s

abbrev pub reset_stream_context : Context → Context
reset_stream_context ctx = record ctx {
  video = empty_buffer;
  audio = empty_buffer;
  last_quality_check = 0;
  last_stats_update = 0;
}

-- rtmp_stream_disconnect
unfoldable pub disconnect : Stream → Stream
disconnect s =
    let closed_link = if is_idle s.state then s else record (drop_link s) { state = idle } in
    record closed_link { context = reset_stream_context s.context; states = notify idle s }

abbrev is_closed : State → Bool
is_closed closed = true
is_closed _ = false

-- rtmp_stream_is_connected
unfoldable pub is_connected : Stream → Bool
is_connected s = not (is_idle s.state) && not (is_closed s.state)

-- rtmp_stream_publish: what rtmp_send_create_stream and rtmp_send_publish return.
unfoldable pub publish : Link → (name : Bytes) → (creates publishes : Bool) → Stream → Bool × Stream
unfolding is_connected
publish link name creates publishes s =
    let named = record s { stream_name = take 255 name } in
    let started = (announce link (record named { state = publishing })).1 in
    if not (is_connected s)
    then (false, s)
    else if not creates
    then (false, s)
    else if not publishes
    then (false, named)
    else (true, record started { states = notify publishing started })
