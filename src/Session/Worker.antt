-- ===== src/Session/Worker.antt =====
-- rtmp_session.c: one round of session_worker_thread.
use rtmpcamera.Prelude.{
  ℕ, ◌+◌, true, false, Option, none, some, not, if◌then◌else◌, ◌==◌, leb, u32, u64, ◌-◌, ◌%◌, ◌^◌,
}
use rtmpcamera.Session.{
  Session, Thread, looping, blocked, returned, closed, connection_error, set_state, handle_error,
}

-- What rtmp_chunk_decode makes of the bytes: nothing, a user control message with its first
-- byte, or any other message.
pub data Decoded : Type 0 where
  undecoded other_message : Decoded
  user_control : (first : ℕ) → Decoded

-- The outcome of rtmp_recv, and of rtmp_would_block on an error.
pub data Received : Type 0 where
  received : (count : ℕ) → Decoded → Received
  end_of_stream would_block recv_error : Received

-- `now - t` on `uint64_t`
abbrev sub64 : ℕ → ℕ → ℕ
sub64 a b = (a + 2 ^ 64 - b) % 2 ^ 64

abbrev ping : (now : ℕ) → Session → Session
ping now s =
    if leb 5000 (sub64 now s.last_ping_time)
    then record s {
      last_ping_time = now;
      stats = record s.stats { ping_count = u32 (s.stats.ping_count + 1) };
    }
    else s

abbrev process : (now : ℕ) → Decoded → Session → Session
process now (user_control first) s =
    if first == 7
    then record s {
      last_ping_response = now;
      stats = record s.stats { rtt = sub64 now s.last_ping_time };
    }
    else s
process now _ s = s

abbrev count : ℕ → Session → Session
count n s = record s {
  stats = record s.stats {
    bytes_received = u64 (s.stats.bytes_received + n);
    messages_received = u32 (s.stats.messages_received + 1);
  };
}

-- A thread that locks a mutex of its own stays there with the mutex held.
abbrev or_block : Session → Option Session → Session
or_block s none = record s { worker = blocked; held = true }
or_block s (some s') = record s' { worker = returned; held = false }

-- What follows the lock: `s` is the session with the mutex held by this thread.
unfoldable pub handle : (now : ℕ) → Received → Session → Session
unfolding set_state handle_error
handle now (received n message) s = record (process now message (count n s)) { held = false }
handle now would_block s = record s { held = false }
handle now end_of_stream s = or_block s (set_state now closed s)
handle now recv_error s = or_block s (handle_error now connection_error s)

-- One round of the loop, or the loop's end. A thread that is not in its loop does nothing.
unfoldable pub loop_round : Thread → (now : ℕ) → Received → Session → Session
unfolding handle
loop_round looping now r s =
    if not s.is_running
    then record s { worker = returned }
    else if s.held
    then s
    else handle now r (ping now (record s { held = true }))
loop_round _ now r s = s

unfoldable pub round : (now : ℕ) → Received → Session → Session
unfolding loop_round
round now r s = loop_round s.worker now r s
