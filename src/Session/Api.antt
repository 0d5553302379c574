-- ===== src/Session/Api.antt =====
-- rtmp_session.c: the calls of a client. Each returns its int as a Bool and the new session.
use rtmpcamera.Prelude.{
  ℕ, ◌+◌, Bool, true, false, Option, none, some, not, ◌&&◌, if◌then◌else◌, ltb, ◌==◌, ◌*◌, u32, u64,
}
use rtmpcamera.Utils.{elapsed}
use rtmpcamera.Session.{
  State, Stats, init, connecting, connected, publishing, error, closed, state_eq, Thread, absent,
  looping, blocked, returned, Session, Stream, invoke_stream, video_stream, audio_stream,
  data_stream, Message, command_amf0, video, audio, data_amf0, Chunk, Env, set_state, handle_error,
  is_nonzero, count_sent, connection_failed, handshake_failed, connect_command_failed,
  worker_thread_failed, publish_command_failed, Reason,
}

abbrev command : (size stream : ℕ) → Chunk
command size stream = record {
  chunk_stream_id = invoke_stream;
  message_type = command_amf0;
  message_length = size;
  timestamp = 0;
  message_stream_id = stream;
}

-- session_send_connect and session_send_publish, for a command of `size` bytes
unfoldable pub send_command : Env → (size stream : ℕ) → Bool
send_command e size stream =
    e.encodes (command size stream) && is_nonzero (e.sends (command size stream))

abbrev fail : Env → Reason → Session → Option (Bool × Session)
fail e why s = elim (handle_error e.now why s) [ none ↦ none | some s' ↦ some (false, s') ]

-- the rest of rtmp_session_connect, behind its first change of state
unfoldable pub connect_steps : Env → (size : ℕ) → Session → Option (Bool × Session)
unfolding send_command handle_error
connect_steps e size s =
    if not e.connects
    then fail e connection_failed s
    else if not e.shakes
    then fail e handshake_failed s
    else if not (send_command e size 0)
    then fail e connect_command_failed s
    else if not e.starts_thread
    then fail e worker_thread_failed (record s { is_running = true })
    else some (true, record s { is_running = true; worker = looping })

-- rtmp_session_connect; `size` is what rtmp_amf_encode_connect reports
unfoldable pub connect : Env → (size : ℕ) → Session → Option (Bool × Session)
unfolding connect_steps set_state
connect e size s =
    if not (state_eq s.state init)
    then some (false, s)
    else elim (set_state e.now connecting s) [ none ↦ none | some s' ↦ connect_steps e size s' ]

-- `pthread_join`: a worker in its loop sees `is_running` cleared and returns; one that waits for
-- its own mutex never does.
abbrev join : Thread → Session → Option Session
join absent s = some s
join looping s = some (record s { worker = absent })
join blocked s = none
join returned s = some (record s { worker = absent })

-- rtmp_session_disconnect
unfoldable pub disconnect : Env → Session → Option (Bool × Session)
unfolding set_state
disconnect e s = elim (join s.worker (record s { is_running = false })) [
  | none ↦ none
  | some s' ↦ elim (set_state e.now closed s') [ none ↦ none | some t ↦ some (true, t) ]
]

-- rtmp_session_start_publish; `size` is what rtmp_amf_encode_publish reports
unfoldable pub start_publish : Env → (size : ℕ) → Session → Option (Bool × Session)
unfolding send_command set_state handle_error
start_publish e size s =
    if not (state_eq s.state connected)
    then some (false, s)
    else if not (send_command e size 1)
    then fail e publish_command_failed s
    else elim (set_state e.now publishing s) [ none ↦ none | some s' ↦ some (true, s') ]

-- rtmp_session_stop_publish
unfoldable pub stop_publish : Env → Session → Option (Bool × Session)
unfolding set_state
stop_publish e s =
    if not (state_eq s.state publishing)
    then some (false, s)
    else elim (set_state e.now connected s) [ none ↦ none | some s' ↦ some (true, s') ]

-- `if (result > 0) { bytes_sent += result; messages_sent++; }`
abbrev count : (sent : ℕ) → Session → Session
count sent s =
    if ltb 0 sent
    then record s {
      stats = record s.stats {
        bytes_sent = u64 (s.stats.bytes_sent + sent);
        messages_sent = u32 (s.stats.messages_sent + 1);
      };
    }
    else s

-- The body that the three send functions share, from the lock to the unlock.
unfoldable pub send_chunk : Env → Chunk → Session → Option (Bool × Session)
send_chunk e chunk s =
    if s.held
    then none
    else if not (e.encodes chunk)
    then some (false, s)
    else some (ltb 0 (count_sent (e.sends chunk)), count (count_sent (e.sends chunk)) s)

abbrev media : Stream → Message → (size timestamp : ℕ) → Chunk
media stream message size timestamp = record {
  chunk_stream_id = stream;
  message_type = message;
  message_length = size;
  timestamp = timestamp;
  message_stream_id = 1;
}

-- rtmp_session_send_video
unfoldable pub send_video :
    Env → (has_data : Bool) → (size timestamp : ℕ) → Session → Option (Bool × Session)
unfolding send_chunk
send_video e has_data size timestamp s =
    if not (has_data && state_eq s.state publishing)
    then some (false, s)
    else send_chunk e (media video_stream video size timestamp) s

-- rtmp_session_send_audio
unfoldable pub send_audio :
    Env → (has_data : Bool) → (size timestamp : ℕ) → Session → Option (Bool × Session)
unfolding send_chunk
send_audio e has_data size timestamp s =
    if not (has_data && state_eq s.state publishing)
    then some (false, s)
    else send_chunk e (media audio_stream audio size timestamp) s

-- rtmp_session_send_metadata; `size` is what rtmp_amf_encode_metadata reports
unfoldable pub send_metadata :
    Env → (has_name has_data : Bool) → (size : ℕ) → Session → Option (Bool × Session)
unfolding send_chunk
send_metadata e has_name has_data size s =
    if not (has_name && has_data && state_eq s.state publishing)
    then some (false, s)
    else send_chunk e (media data_stream data_amf0 size e.now) s

-- rtmp_session_get_state
unfoldable pub get_state : Option Session → Option State
get_state none = some error
get_state (some s) = if s.held then none else some s.state

-- rtmp_session_set_state_callback
unfoldable pub set_state_callback : (callback : Bool) → Session → Option Session
set_state_callback callback s =
    if s.held then none else some (record s { has_state_callback = callback })

-- rtmp_session_set_error_callback
unfoldable pub set_error_callback : (callback : Bool) → Session → Option Session
set_error_callback callback s =
    if s.held then none else some (record s { has_error_callback = callback })

-- rtmp_session_destroy: the session as it is freed.
unfoldable pub destroy : Env → Session → Option Session
unfolding disconnect
destroy e s = elim (disconnect e s) [ none ↦ none | some (_, t) ↦ some t ]

-- A bandwidth as a quotient, which the program rounds to `float`; `none` is one that is not stored.
abbrev pub bandwidth : (bytes elapsed : ℕ) → Option (ℕ × ℕ)
bandwidth bytes passed = if passed == 0 then none else some (u64 (bytes * 8), passed)

-- rtmp_session_get_stats: the statistics, with the bandwidths in and out.
unfoldable pub get_stats : (now : ℕ) → Session → Option (Stats × Option (ℕ × ℕ) × Option (ℕ × ℕ))
unfolding elapsed
get_stats now s =
    let passed = elapsed s.stats.connect_time now in
    if s.held
    then none
    else some
        (s.stats, bandwidth s.stats.bytes_received passed, bandwidth s.stats.bytes_sent passed)
