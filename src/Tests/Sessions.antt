-- ===== src/Tests/Sessions.antt =====
-- The session service on small inputs.
use gnuradio4_control_plane.Prelude.{
  ℕ, ◌+◌, ◌≤◌, ◌<◌, String, ◌≡◌, refl, none, some, List, [], ◌∷◌, arith, find, insert, length, ◌⊎◌,
}
use gnuradio4_control_plane.Errors.{ok, err, std_error, invalid_state_error}
use gnuradio4_control_plane.Runtime.{RuntimeManager}
use gnuradio4_control_plane.Storage
use gnuradio4_control_plane.Storage.{Repository}
use gnuradio4_control_plane.Service.Operations.{start_begin}
use gnuradio4_control_plane.Service.State.{World}
use gnuradio4_control_plane.Service.Ids.{
  unused_id, hex_padded, generate_session_id, create, create_with, create_session,
}
use gnuradio4_control_plane.Service.Ids.Unique.{generate_session_id-injective, unused_id-total}
use gnuradio4_control_plane.Service.Schedule.{
  System, Event, creates, begins, start_request, remove_request, run, step, begin, pick, Call, end,
}
use gnuradio4_control_plane.Service.Schedule.Create.{create_cases, Creates, Keeps, new_session}
use gnuradio4_control_plane.Service.Schedule.Exclusion.{Inv, run-Inv, in_flight}
use gnuradio4_control_plane.Service.Schedule.InFlight.{
  initial, initial-Inv, in_flight-le-one, begin-in_flight, end-Answers, Answers,
}
use gnuradio4_control_plane.Service.Schedule.Alone.{alone, perform}
use gnuradio4_control_plane.Service.Refinement.{perform-specified, Matches, specified, view}

abbrev first_id : String
first_id = "sess_0000000000000001"

-- A session is created and its start begins.
abbrev started : List (Event ℕ)
started = creates "name" "graph" none (1 ∷ []) 10 ∷ begins start_request first_id ∷ []

abbrev starting_system : System ℕ
starting_system = run started (initial 0)

starting_system-Inv : Inv starting_system
starting_system-Inv = run-Inv started (initial 0) (initial-Inv 0)

starting_in_flight : 0 < in_flight first_id (starting_system).calls
unfolding run step begin create create_with create_session unused_id generate_session_id in_flight
    start_begin Storage.get Storage.create find insert hex_padded
starting_in_flight = omega arith

in_flight-le-one_example : in_flight first_id (starting_system).calls ≤ 1
in_flight-le-one_example = in_flight-le-one 0 started first_id

run-Inv_example : Inv starting_system
run-Inv_example = run-Inv started (initial 0) (initial-Inv 0)

begin-in_flight_example :
    (message : String) × (begin remove_request first_id (starting_system).world
      ≡ (err (invalid_state_error message), (starting_system).world))
begin-in_flight_example =
    begin-in_flight starting_system starting_system-Inv remove_request first_id starting_in_flight

abbrev first_call : Call
first_call = record {
  request = start_request;
  id = first_id;
  session = new_session "name" "graph" none 10 first_id;
  result = none;
}

first_call-pick : pick 0 (starting_system).calls ≡ some (first_call, [])
unfolding run step begin create create_with create_session unused_id generate_session_id pick
    start_begin Storage.get Storage.create find insert hex_padded
first_call-pick = refl

end-Answers_example :
    Answers starting_system starting_system-Inv first_call 11
      (err (std_error "no device"))
      (end start_request first_id
        (first_call).session
        (err (std_error "no device"))
        11
        (starting_system).world).0
end-Answers_example =
    end-Answers starting_system starting_system-Inv 0 11 first_call [] (err (std_error "no device"))
      first_call-pick

-- A runtime manager that counts the calls, and that cannot destroy.
abbrev counting : RuntimeManager ℕ ℕ
counting = record {
  prepare = λ session n. (ok tt, n + 1);
  start = λ session n. (ok tt, n + 1);
  stop = λ session n. (ok tt, n + 1);
  destroy = λ session n. (err (std_error "busy"), n + 1);
  active_stream_plan = λ session n. (ok none, n);
  fetch_http_stream = λ session stream_id n. (err (std_error "none"), n);
  resolve_websocket_stream = λ session stream_id n. (err (std_error "none"), n);
  set_block_settings = λ session block patch mode n. (ok tt, n);
  get_block_settings = λ session block n. (ok 0, n);
}

abbrev one_session : World ℕ
one_session = (run (creates "name" "graph" none (1 ∷ []) 10 ∷ []) (initial 0)).world

one_session-Inv : Inv (alone one_session)
unfolding run step create create_with create_session unused_id generate_session_id Storage.get
    Storage.create find insert hex_padded
one_session-Inv = run-Inv (creates "name" "graph" none (1 ∷ []) 10 ∷ []) (initial 0) (initial-Inv 0)

perform-specified_example :
    Matches counting
      (perform counting remove_request first_id 12 one_session)
      (specified counting remove_request first_id 12 (view counting one_session))
perform-specified_example =
    perform-specified counting remove_request first_id 12 one_session one_session-Inv

-- The first draw meets the stored session.
create_cases_example :
    Creates "b" "graph" none
      (1 ∷ 2 ∷ [])
      11
      one_session
      (create "b" "graph" none (1 ∷ 2 ∷ []) 11 one_session)
    ⊎ Keeps one_session (create "b" "graph" none (1 ∷ 2 ∷ []) 11 one_session)
create_cases_example = create_cases "b" "graph" none (1 ∷ 2 ∷ []) 11 one_session

length-repository : length (one_session).repository < 2
unfolding run step create create_with create_session unused_id generate_session_id Storage.get
    Storage.create find insert hex_padded
length-repository = omega arith

unused_id-total_example :
    (id : String) × (unused_id (1 ∷ 2 ∷ []) (one_session).repository ≡ some id)
unused_id-total_example =
    unused_id-total (1 ∷ 2 ∷ []) (one_session).repository (omega arith, (omega arith, tt))
      (((λ h. omega arith), tt), (tt, tt)) length-repository

generate_session_id-injective_example : ◌≡◌ {A = ℕ} 7 7
generate_session_id-injective_example =
    generate_session_id-injective 7 7 (omega arith) (omega arith) refl
