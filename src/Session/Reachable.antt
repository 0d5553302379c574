-- ===== src/Session/Reachable.antt =====
-- Which states the calls of rtmp_session.c can reach, and what connecting does.
use rtmpcamera.Prelude.{
  ℕ, ◌≡◌, ◌≢◌, ◌⊎◌, Bool, true, false, Option, none, some, List, ◌&&◌, if◌then◌else◌, arith,
  OptionAll, run_all, run_all-keeps,
}
use rtmpcamera.Session.{
  looping, blocked, Session, init, connecting, connected, publishing, error, Env, create,
}
use rtmpcamera.Session.Api.{
  get_state, connect, disconnect, start_publish, stop_publish, send_video, send_audio,
  send_metadata, set_state_callback, set_error_callback, send_command,
}
use rtmpcamera.Session.Worker.{Received, round, end_of_stream, recv_error}

-- A call of a client, or a round of the worker.
pub data Op : Type 0 where
  connects : Env → (size : ℕ) → Op
  disconnects starts_publish : Env → (size : ℕ) → Op
  stops_publish : Env → Op
  sends_video sends_audio : Env → (has_data : Bool) → (size timestamp : ℕ) → Op
  sends_metadata : Env → (has_name has_data : Bool) → (size : ℕ) → Op
  sets_state_callback sets_error_callback : (callback : Bool) → Op
  works : (now : ℕ) → Received → Op

abbrev after : Option (Bool × Session) → Option Session
after none = none
after (some (r, s)) = some s

-- `none`: the call never returns.
unfoldable pub step : Op → Session → Option Session
unfolding connect disconnect start_publish stop_publish send_video send_audio send_metadata
    set_state_callback set_error_callback round
step (connects e size) s = after (connect e size s)
step (disconnects e size) s = after (disconnect e s)
step (starts_publish e size) s = after (start_publish e size s)
step (stops_publish e) s = after (stop_publish e s)
step (sends_video e has_data size t) s = after (send_video e has_data size t s)
step (sends_audio e has_data size t) s = after (send_audio e has_data size t s)
step (sends_metadata e has_name has_data size) s = after (send_metadata e has_name has_data size s)
step (sets_state_callback callback) s = set_state_callback callback s
step (sets_error_callback callback) s = set_error_callback callback s
step (works now r) s = some (round now r s)

abbrev pub IsIdle : Session → Type 0
IsIdle s = (s.state ≢ connected) × (s.state ≢ publishing)

step-IsIdle : (op : Op) (s : Session) → IsIdle s → OptionAll IsIdle (step op s)
unfolding step
step-IsIdle (connects e size) s h = ground arith
step-IsIdle _ s h = ground arith

-- No sequence of client calls and worker rounds from a new session ever reaches CONNECTED or
-- PUBLISHING; in the session that it does reach, start_publish and the three send functions
-- return 0 and change nothing, whatever the network answers.
pub run-create-IsIdle :
    (ops : List Op) (s : Session) (e : Env) (has_name has_data : Bool) (size t : ℕ)
    → run_all step ops create ≡ some s
    → IsIdle s
      × (start_publish e size s ≡ some (false, s))
      × (send_video e has_data size t s ≡ some (false, s))
      × (send_audio e has_data size t s ≡ some (false, s))
      × (send_metadata e has_name has_data size s ≡ some (false, s))
unfolding create start_publish send_video send_audio send_metadata
run-create-IsIdle ops s e has_name has_data size t h =
    ground (arith, run_all-keeps step IsIdle step-IsIdle ops create s (ground arith) h)

-- All that rtmp_session_connect needs: a connection, the handshake, a connect command whose
-- rtmp_send does not return 0, and a thread.
abbrev pub connect_works : Env → ℕ → Bool
connect_works e size = e.connects && (e.shakes && (send_command e size 0 && e.starts_thread))

abbrev pub Connecting : (all_work : Bool) → Option (Bool × Session) → Type 0
Connecting all_work none = ⊥
Connecting all_work (some (r, s)) =
    (r ≡ all_work) × (s.state ≡ (if all_work then connecting else error)) × (s.held ≡ false)

-- From INIT, while the mutex is free, connect returns, and returns 1 exactly when each of its
-- steps works (a negative rtmp_send counts as one that does); the session is then CONNECTING, and
-- in state ERROR otherwise.
pub connect_outcome :
    (e : Env) (size : ℕ) (s : Session)
    → s.held ≡ false
    → s.state ≡ init
    → Connecting (connect_works e size) (connect e size s)
unfolding connect
connect_outcome e size s free i = ground arith

-- When the peer closes the connection or rtmp_recv fails, the worker locks the mutex that it
-- already holds: the state is not changed, and from then on neither disconnect, which joins the
-- worker, nor get_state returns.
pub round_blocks :
    (now : ℕ) (r : Received) (s : Session) (e : Env)
    → s.worker ≡ looping
    → s.is_running ≡ true
    → s.held ≡ false
    → (r ≡ end_of_stream) ⊎ (r ≡ recv_error)
    → let t = round now r s in
      (t.worker ≡ blocked)
      × (t.state ≡ s.state)
      × (disconnect e t ≡ none)
      × (get_state (some t) ≡ none)
unfolding round disconnect get_state
round_blocks now end_of_stream s e w i h k = ground arith
round_blocks now recv_error s e w i h k = ground arith
round_blocks now _ s e w i h k = ground arith
