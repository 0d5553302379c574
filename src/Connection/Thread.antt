-- ===== src/Connection/Thread.antt =====
-- rtmp_core.c: one round of the loop of rtmp_thread_func.
use rtmpcamera.Prelude.{
  ℕ, ◌+◌, false, not, Option, none, some, List, [], ◌∷◌, ◌++◌, if◌then◌else◌, leb, u64, ◌-◌, ◌^◌,
  ◌%◌,
}
use rtmpcamera.Connection.{Connection, Message, handle_error, ping_interval}

-- The result of `send`: negative, or a count.
pub data Sending : Type 0 where
  send_fails : Sending
  sends : ℕ → Sending

-- The result of `recv`: 0 or an error other than EAGAIN, EAGAIN, or a count above 0.
pub data Receiving : Type 0 where
  recv_ends recv_again : Receiving
  receives : ℕ → Receiving

-- What `select` finds, and what follows: `write` and `read` are there when the socket is ready.
pub data Select : Type 0 where
  interrupted select_fails : Select
  ready : (write : Option Sending) → (read : Option Receiving) → (now : ℕ) → Select

abbrev stop_with_error : Connection → Connection
stop_with_error c = record (handle_error c) { has_thread = false }

-- The part under "Handle write". The socket is watched for writing only when the queue is not
-- empty, and nobody but the thread takes messages from it.
unfoldable pub write_message : Option Sending → Connection → Connection
unfolding handle_error
write_message none c = c
write_message (some r) c = write_queue c.send_queue
  where
    write_first : Sending → Message → List Message → Connection
    write_first send_fails m queue =
        stop_with_error (record c { send_queue = queue; handed = c.handed ++ m ∷ [] })
    write_first (sends n) m queue = record c {
      send_queue = queue;
      handed = c.handed ++ m ∷ [];
      bytes_sent = u64 (c.bytes_sent + n);
      messages_sent = u64 (c.messages_sent + 1);
    }

    write_queue : List Message → Connection
    write_queue [] = c
    write_queue (m ∷ queue) = write_first r m queue

-- The part under "Handle read".
unfoldable pub read_socket : Option Receiving → Connection → Connection
unfolding handle_error
read_socket none c = c
read_socket (some recv_ends) c = stop_with_error c
read_socket (some recv_again) c = c
read_socket (some (receives n)) c = record c {
  bytes_received = u64 (c.bytes_received + n);
  messages_received = u64 (c.messages_received + 1);
}

-- The part under "Handle ping", on `uint64_t`.
unfoldable pub ping : (now : ℕ) → Connection → Connection
ping now c =
    if leb ping_interval ((now + 2 ^ 64 - c.last_ping_time) % 2 ^ 64)
    then record c { last_ping_time = now }
    else c

-- One round of the loop of rtmp_thread_func; the thread ends at the loop's test and at each `break`.
unfoldable pub round : Select → Connection → Connection
unfolding handle_error write_message read_socket ping
round s c =
    if not c.has_thread
    then c
    else if not c.thread_running
    then record c { has_thread = false }
    else after_select s
  where
    then_ping : ℕ → Connection → Connection
    then_ping now d = if d.has_thread then ping now d else d

    then_read : Option Receiving → Connection → Connection
    then_read read d = if d.has_thread then read_socket read d else d

    after_select : Select → Connection
    after_select interrupted = c
    after_select select_fails = stop_with_error c
    after_select (ready write read now) = then_ping now (then_read read (write_message write c))
