-- ===== src/Connection/Order.antt =====
-- rtmp_core.c: the order of the messages, over any sequence of calls and rounds of the thread.
use rtmpcamera.Prelude.{
  ℕ, ◌≤◌, ◌≡◌, refl, sym, ap, ◌∙◌, Bool, true, false, Option, none, some, List, [], ◌∷◌, ◌++◌,
  arith, length, length-append, append_assoc, append-nil, if◌then◌else◌, u32,
}
use rtmpcamera.Queue.{max_queue_size}
use rtmpcamera.Connection.{Bytes, Connection, Message, State, create, set_state, handle_error, push}
use rtmpcamera.Connection.Thread.{
  Select, interrupted, select_fails, ready, Sending, Receiving, round, write_message, read_socket,
  ping,
}
use rtmpcamera.Connection.Types.{MessageType, type_number}
use rtmpcamera.Connection.Api.{
  Network, connect, disconnect, socket_connect, work, publish_start, publish_stop, send_video,
  send_audio, send_metadata, enqueue, message, set_chunk_size, set_window_size, set_buffer_time,
}

-- A call of a client, or a round of the thread.
pub data Op : Type 0 where
  connects : Network → Op
  disconnects : Op
  works : Select → Op
  starts_publish stops_publish : (encoded : Option Bytes) → (now : ℕ) → Op
  sends_video sends_audio : (allocates : Bool) → Bytes → (timestamp : ℕ) → Op
  sends_metadata : Bytes → (encoded : Option Bytes) → (now : ℕ) → Op
  sets_chunk_size sets_window_size sets_buffer_time : ℕ → Op

-- The result and the connection behind it.
unfoldable pub step : Op → Connection → Bool × Connection
unfolding connect disconnect round publish_start publish_stop send_video send_audio send_metadata
    set_chunk_size set_window_size set_buffer_time
step (connects n) c = connect n c
step disconnects c = (true, disconnect c)
step (works s) c = (true, round s c)
step (starts_publish encoded now) c = publish_start encoded now c
step (stops_publish encoded now) c = publish_stop encoded now c
step (sends_video allocates bytes t) c = send_video allocates bytes t c
step (sends_audio allocates bytes t) c = send_audio allocates bytes t c
step (sends_metadata bytes encoded now) c = send_metadata bytes encoded now c
step (sets_chunk_size n) c = set_chunk_size n c
step (sets_window_size n) c = set_window_size n c
step (sets_buffer_time n) c = set_buffer_time n c

unfoldable pub run : List Op → Connection → Connection
run [] c = c
run (op ∷ ops) c = run ops (step op c).1

abbrev listed : Option Message → List Message
listed none = []
listed (some m) = m ∷ []

-- The message that a call asks to send.
abbrev pub asked : Op → (stream_id : ℕ) → List Message
asked (starts_publish encoded now) id =
    listed (message encoded (type_number MessageType.command_amf0) (u32 now) id)
asked (stops_publish encoded now) id =
    listed (message encoded (type_number MessageType.command_amf0) (u32 now) id)
asked (sends_video allocates bytes t) id =
    listed (message (some bytes) (type_number MessageType.video) (u32 t) id)
asked (sends_audio allocates bytes t) id =
    listed (message (some bytes) (type_number MessageType.audio) (u32 t) id)
asked (sends_metadata bytes encoded now) id =
    listed (message encoded (type_number MessageType.data_amf0) (u32 now) id)
asked _ id = []

-- The messages of the calls that returned 1.
unfoldable pub accepted : List Op → Connection → List Message
accepted [] c = []
accepted (op ∷ ops) c =
    let rest = accepted ops (step op c).1 in
    (if (step op c).0 then asked op c.stream_id else []) ++ rest

-- What was given to `send`, and behind it what still waits.
abbrev pub traffic : Connection → List Message
traffic c = c.handed ++ c.send_queue

-- The queue is within its limit, and the traffic has grown by these messages.
abbrev pub Grows : Connection → List Message → Connection → Type 0
Grows c more d = (length d.send_queue ≤ max_queue_size) × (traffic d ≡ traffic c ++ more)

abbrev Keeps : Connection → Connection → Type 0
Keeps c d = (length d.send_queue ≤ max_queue_size) × (traffic d ≡ traffic c)

write-queue :
    (r : Sending) (c : Connection) (queue : List Message)
    → length queue ≤ max_queue_size
    → (let d = record c { send_queue = queue } in Keeps d (write_message (some r) d))
unfolding write_message handle_error set_state
write-queue r c [] h = (h, refl)
write-queue r c (m ∷ queue) h = ground (arith, append_assoc c.handed (m ∷ []) queue)

write-Keeps :
    (r : Option Sending) (c : Connection)
    → length c.send_queue ≤ max_queue_size
    → Keeps c (write_message r c)
unfolding write_message
write-Keeps none c h = (h, refl)
write-Keeps (some r) c h = write-queue r c c.send_queue h

read-Keeps :
    (r : Option Receiving) (c : Connection)
    → length c.send_queue ≤ max_queue_size
    → Keeps c (read_socket r c)
unfolding read_socket handle_error set_state
read-Keeps r c h = ground arith

ping-Keeps :
    (now : ℕ) (c : Connection) → length c.send_queue ≤ max_queue_size → Keeps c (ping now c)
unfolding ping
ping-Keeps now c h = ground arith

round-Keeps :
    (s : Select) (c : Connection) → length c.send_queue ≤ max_queue_size → Keeps c (round s c)
unfolding round handle_error set_state
round-Keeps interrupted c h = ground arith
round-Keeps select_fails c h = ground arith
round-Keeps (ready write read now) c h =
    let written = write_message write c in
    let (w, e) = write-Keeps write c h in
    let received = read_socket read written in
    let (v, f) = read-Keeps read written w in
    let (u, g) = ping-Keeps now received v in
    let (x, k) = ping-Keeps now written w in ground (arith, w, e, v, f, u, g, x, k)

work-Keeps :
    (rounds : List Select) (c : Connection)
    → length c.send_queue ≤ max_queue_size
    → Keeps c (work rounds c)
unfolding work
work-Keeps [] c h = (h, refl)
work-Keeps (r ∷ rs) c h =
    let (k, e) = round-Keeps r c h in let (l, f) = work-Keeps rs (round r c) k in (l, f ∙ e)

connect-Keeps :
    (n : Network) (c : Connection) → length c.send_queue ≤ max_queue_size → Keeps c (connect n c).1
unfolding connect socket_connect handle_error disconnect set_state
connect-Keeps n c h =
    let begun = record (set_state State.connecting c) {
      is_open = true;
      thread_running = true;
      has_thread = true;
    } in
    ground (arith, work-Keeps n.rounds begun h)

nothing-Grows : (c d : Connection) → Keeps c d → Grows c [] d
nothing-Grows c d (h, e) = (h, e ∙ sym (append-nil (traffic c)))

enqueue-Grows :
    (o : Option Message) (c : Connection)
    → length c.send_queue ≤ max_queue_size
    → Grows c (if (enqueue o c).0 then listed o else []) (enqueue o c).1
unfolding push
enqueue-Grows none c h = (h, sym (append-nil (traffic c)))
enqueue-Grows (some m) c h = ground (
  arith,
  append_assoc c.handed c.send_queue (m ∷ []),
  append-nil (traffic c),
  length-append c.send_queue (m ∷ []),
)

same_branches : (b : Bool) (ms : List Message) → (if b then ms else ms) ≡ ms
same_branches true ms = refl
same_branches false ms = refl

step-Grows :
    (op : Op) (c : Connection)
    → length c.send_queue ≤ max_queue_size
    → Grows c (if (step op c).0 then asked op c.stream_id else []) (step op c).1
unfolding step disconnect publish_start publish_stop send_video send_audio send_metadata
    set_chunk_size set_window_size set_buffer_time set_state
step-Grows (connects n) c h =
    rw (same_branches (connect n c).0 []) (nothing-Grows c (connect n c).1 (connect-Keeps n c h))
step-Grows disconnects c h = nothing-Grows c (disconnect c) (h, refl)
step-Grows (works s) c h = nothing-Grows c (round s c) (round-Keeps s c h)
step-Grows (starts_publish encoded now) c h = ground (
  arith,
  enqueue-Grows (message encoded (type_number MessageType.command_amf0) (u32 now) c.stream_id) c h,
  append-nil (traffic c),
)
step-Grows (stops_publish encoded now) c h = ground (
  arith,
  enqueue-Grows (message encoded (type_number MessageType.command_amf0) (u32 now) c.stream_id) c h,
  append-nil (traffic c),
)
step-Grows (sends_video allocates bytes t) c h = ground (
  arith,
  enqueue-Grows (message (some bytes) (type_number MessageType.video) (u32 t) c.stream_id) c h,
  append-nil (traffic c),
)
step-Grows (sends_audio allocates bytes t) c h = ground (
  arith,
  enqueue-Grows (message (some bytes) (type_number MessageType.audio) (u32 t) c.stream_id) c h,
  append-nil (traffic c),
)
step-Grows (sends_metadata bytes encoded now) c h = ground (
  arith,
  enqueue-Grows (message encoded (type_number MessageType.data_amf0) (u32 now) c.stream_id) c h,
  append-nil (traffic c),
)
step-Grows (sets_chunk_size n) c h = ground (arith, append-nil (traffic c))
step-Grows (sets_window_size n) c h = ground (arith, append-nil (traffic c))
step-Grows (sets_buffer_time n) c h = ground (arith, append-nil (traffic c))

run-Grows :
    (ops : List Op) (c : Connection)
    → length c.send_queue ≤ max_queue_size
    → Grows c (accepted ops c) (run ops c)
unfolding run accepted
run-Grows [] c h = (h, sym (append-nil (traffic c)))
run-Grows (op ∷ ops) c h =
    let d = (step op c).1 in
    let (k, e) = step-Grows op c h in
    let (l, f) = run-Grows ops d k in
    (l, f ∙ ap (λ t. t ++ accepted ops d) e ∙ append_assoc (traffic c) _ (accepted ops d))

-- Whatever the calls of a client and the rounds of the thread, in any order and over any number of
-- connects, disconnects and errors: the messages given to the socket and behind them those that
-- wait are the messages of the calls that returned 1, in the order of the calls, and at most
-- 1000 wait.
pub run-accepted :
    (ops : List Op)
    → ((run ops create).handed ++ (run ops create).send_queue ≡ accepted ops create)
      × (length (run ops create).send_queue ≤ max_queue_size)
unfolding create
run-accepted ops = let (l, e) = run-Grows ops create (omega arith) in (e, l)
