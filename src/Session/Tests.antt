-- ===== src/Session/Tests.antt =====
-- A session against a cooperating network, and the theorems at it.
use rtmpcamera.Prelude.{run_all, ◌≡◌, refl, true, false, none, some, List, [], ◌∷◌, inl}
use rtmpcamera.Session.{
  Session, State, connecting, looping, blocked, Env, bytes, create, state_callback,
}
use rtmpcamera.Session.Api.{
  set_state_callback, connect, disconnect, get_state, start_publish, send_video, send_audio,
  send_metadata,
}
use rtmpcamera.Session.Worker.{round, received, user_control, end_of_stream}
use rtmpcamera.Session.Reachable.{
  step, Op, connects, starts_publish, sets_state_callback, works, IsIdle, Connecting, connect_works,
  run-create-IsIdle, connect_outcome, round_blocks,
}

-- Everything works, and every send sends its whole chunk.
abbrev net : Env
net = record {
  connects = true;
  shakes = true;
  starts_thread = true;
  encodes = λ c. true;
  sends = λ c. bytes c.message_length;
  now = 7000;
}

abbrev live : List Op
live =
    sets_state_callback true
    ∷ (connects net 90 ∷ works 7001 (received 20 (user_control 7)) ∷ starts_publish net 50 ∷ [])

-- The session after these calls: connected in fact, CONNECTING by its state.
abbrev started : Session
started = record create {
  state = connecting;
  stats = record create.stats { bytes_received = 20; messages_received = 1; ping_count = 1 };
  is_running = true;
  worker = looping;
  last_ping_time = 7001;
  last_ping_response = 7001;
  has_state_callback = true;
  calls = state_callback State.init connecting ∷ [];
}

run-live : run_all step live create ≡ some started
unfolding create run_all step connect round set_state_callback start_publish
run-live = refl

run-create-IsIdle_example :
    IsIdle started
    × (start_publish net 50 started ≡ some (false, started))
    × (send_video net true 50 40 started ≡ some (false, started))
    × (send_audio net true 50 40 started ≡ some (false, started))
    × (send_metadata net true true 50 started ≡ some (false, started))
run-create-IsIdle_example = run-create-IsIdle live started net true true 50 40 run-live

connect_outcome_example : Connecting (connect_works net 90) (connect net 90 create)
unfolding create
connect_outcome_example = connect_outcome net 90 create refl refl

round_blocks_example :
    let t = round 9000 end_of_stream started in
    (t.worker ≡ blocked)
    × (t.state ≡ connecting)
    × (disconnect net t ≡ none)
    × (get_state (some t) ≡ none)
unfolding create
round_blocks_example = round_blocks 9000 end_of_stream started net refl refl refl (inl refl)
