-- ===== src/Stream/Tests.antt =====
-- Runs of rtmp_stream.c on concrete streams, and the theorems at them.
use rtmpcamera.Prelude.{
  ◌≤◌, ◌≡◌, ◌⊎◌, refl, true, false, some, List, [], ◌∷◌, ◌++◌, map, arith, codes, decimal, value,
}
use rtmpcamera.Utils.{Packet}
use rtmpcamera.Stream.{Stream, State, low, high, create, destroy, set_buffer_size}
use rtmpcamera.Stream.Url.{Address, parse, tc_url_of, span, skip_space, port_text}
use rtmpcamera.Stream.Url.Reads.{IsPlain, parse-tc_url_of}
use rtmpcamera.Stream.Metadata.{Link, announce}
use rtmpcamera.Stream.Control.{connect, disconnect, is_connected, publish}
use rtmpcamera.Stream.Media.{choose_quality, check_quality, send_video}
use rtmpcamera.Stream.Adaptive.{check_quality-between, check_quality_raises}
use rtmpcamera.Stream.Unchanged.{Op, connects, publishes, sends_video, sets_video, run, run-create}

-- A connection on which all succeeds.
abbrev link : Link
link = record {
  creates_object = true;
  encode_metadata = λ type metadata. some type;
  send_packet = λ packet. true;
}

-- A stream at the lowest quality that measured 90 kbit/s.
abbrev slow : Stream
slow = record create {
  state = State.publishing;
  stats = record create.stats { current_bitrate = 90000 };
  context = record create.context { quality = low };
}

check_quality_raises_run :
    ((check_quality link 12000 (check_quality link 6000 slow)).context.quality ≡ high)
    × ((check_quality link 12000 (check_quality link 6000 slow)).config.video_bitrate ≡ 8000000)
unfolding create
check_quality_raises_run =
    check_quality_raises link 6000 12000 slow refl refl (omega arith) (omega arith) (omega arith)

check_quality-between_run :
    ((check_quality link 6000 slow).context.quality ≡ choose_quality slow)
    × (((check_quality link 6000 slow).config.video_bitrate ≡ 2000000)
        ⊎ ((100000 ≤ (check_quality link 6000 slow).config.video_bitrate)
            × ((check_quality link 6000 slow).config.video_bitrate ≤ 8000000)))
unfolding create
check_quality-between_run =
    check_quality-between link 6000 slow refl (omega arith) (omega arith) (omega arith)

-- A frame of five bytes in the first second, a keyframe later, and a bitrate set in between.
abbrev calls : List Op
calls =
    connects (codes "rtmp://host/live/cam") true true
    ∷ publishes (codes "cam") true true
    ∷ sends_video (1 ∷ 2 ∷ 3 ∷ 4 ∷ 5 ∷ []) 0 1000 true
    ∷ sets_video 640 480 25 900000
    ∷ sends_video (1 ∷ []) 40 9000 true
    ∷ []

run-create_example :
    ((run link calls create).stats.current_bitrate ≤ 4294967)
    × ((run link calls create).context.quality ≡ high)
    × ((run link calls create).config.video_bitrate ≡ 900000)
run-create_example = run-create link calls

abbrev camera : Address
camera = record {
  host = codes "host";
  port = record { negative = false; magnitude = 8080 };
  app = codes "live";
  stream_name = codes "cam";
}

camera-IsPlain : IsPlain camera
camera-IsPlain = record {
  host = record {
    clear = (refl, (refl, (refl, (refl, tt))));
    nonempty = omega arith;
    fits = omega arith;
  };
  port = refl;
  app = record {
    clear = (refl, (refl, (refl, (refl, tt))));
    nonempty = omega arith;
    fits = omega arith;
  };
  stream_name = record {
    clear = (refl, (refl, (refl, tt)));
    nonempty = omega arith;
    fits = omega arith;
  };
}

parse-tc_url_of_example : parse (tc_url_of camera ++ codes "/cam") ≡ some camera
unfolding port_text decimal
parse-tc_url_of_example = parse-tc_url_of camera camera-IsPlain (omega arith)

-- Without a port the default is taken; but a colon in the app gives its number to the port.
parse-default :
    parse (codes "rtmp://host/live/cam")
    ≡ some (record camera { port = record { negative = false; magnitude = 1935 } })
unfolding parse span skip_space
parse-default = refl

parse-port_of_app :
    parse (codes "rtmp://host/live:7/cam")
    ≡ some
        (record camera { port = record { negative = false; magnitude = 7 }; app = codes "live:7" })
unfolding parse span skip_space value
parse-port_of_app = refl

-- A stream publishes as soon as its connect command is sent, before any answer.
connect-is_connected :
    is_connected (connect (codes "rtmp://host/live/cam") true true create).1 ≡ true
unfolding is_connected connect parse create span skip_space
connect-is_connected = refl

publish-announces :
    map (λ (p : Packet). p.type) (publish link (codes "cam") true true slow).1.packets ≡ 18 ∷ []
unfolding publish create is_connected announce
publish-announces = refl

disconnect-slow : (is_connected (disconnect slow) ≡ false) × ((disconnect slow).disconnects ≡ 1)
unfolding is_connected disconnect create
disconnect-slow = (refl, refl)

destroy-nothing : destroy (set_buffer_size 7 slow) ≡ []
unfolding destroy create set_buffer_size
destroy-nothing = refl

send_video-bitrate : (send_video link (1 ∷ 2 ∷ []) 0 1000 false slow).1.stats.current_bitrate ≡ 16
unfolding send_video create
send_video-bitrate = refl
