-- ===== src/Tests/Reading.antt =====
-- The reading methods of the session service on small inputs.
use gnuradio4_control_plane.Prelude.{
  ℕ, zero, suc, ◌+◌, ◌<◌, String, ◌≡◌, refl, true, none, some, [], ◌∷◌, arith, find, insert, ◌<>◌,
}
use gnuradio4_control_plane.Errors.{Result, ok, err, std_error, invalid_state_error, what}
use gnuradio4_control_plane.Domain.Session.{Session, running}
use gnuradio4_control_plane.Storage
use gnuradio4_control_plane.Runtime.{RuntimeManager, HttpStreamResponse}
use gnuradio4_control_plane.Service.State.{World, active, phase_for}
use gnuradio4_control_plane.Service.Ids.{
  create, create_with, create_session, unused_id, generate_session_id, hex_padded,
}
use gnuradio4_control_plane.Service.Operations.{start_begin}
use gnuradio4_control_plane.Service.Schedule.{
  System, creates, begins, start_request, run, step, begin,
}
use gnuradio4_control_plane.Service.Schedule.Exclusion.{Inv, run-Inv, in_flight}
use gnuradio4_control_plane.Service.Schedule.InFlight.{initial, initial-Inv}
use gnuradio4_control_plane.Service.Reading.{
  is_live, active_stream_plan, fetch_http_stream, resolve_websocket_stream,
  is_transient_http_stream_connect_error,
}
use gnuradio4_control_plane.Service.Reading.Retries.{reply, Transient, fetch_http_stream_lem}
use gnuradio4_control_plane.Service.Reading.Refusals.{
  streams_in_flight, Throws, fetch_http_stream-Throws,
}

abbrev on_air : Session
on_air = record {
  id = "b";
  name = "on air";
  grc_content = "graph";
  scheduler_alias = none;
  state = running;
  last_error = none;
  created_at = 3;
  updated_at = 4;
}

abbrev snapshot : HttpStreamResponse
snapshot = record { status = 200; body = "[1]"; content_type = "application/json" }

abbrev not_reached : String
not_reached = "failed to reach internal HTTP stream endpoint: refused"

abbrev answers : ℕ → Result HttpStreamResponse
answers zero = err (std_error not_reached)
answers (suc n) = ok snapshot

-- The endpoint answers from the second call on.
abbrev warming_up : RuntimeManager ℕ ℕ
warming_up = record {
  prepare = λ session n. (ok tt, n);
  start = λ session n. (ok tt, n);
  stop = λ session n. (ok tt, n);
  destroy = λ session n. (ok tt, n);
  active_stream_plan = λ session n. (ok none, n);
  fetch_http_stream = λ session stream_id n. (answers n, n + 1);
  resolve_websocket_stream = λ session stream_id n. (err (std_error "none"), n);
  set_block_settings = λ session block patch mode n. (ok tt, n);
  get_block_settings = λ session block n. (ok 0, n);
}

abbrev broadcasting : World ℕ
broadcasting = record {
  repository = ("b", on_air) ∷ ("a", record on_air { id = "a" }) ∷ [];
  phases = ("b", active) ∷ [];
  runtime = 0;
}

stored : find "b" (broadcasting).repository ≡ some on_air
unfolding find
stored = refl

live : is_live broadcasting on_air ≡ true
unfolding phase_for find
live = refl

one_failure : Transient warming_up on_air "s" 1 (broadcasting).runtime
unfolding Transient reply is_transient_http_stream_connect_error what
one_failure zero less = (std_error not_reached, not_reached, refl, refl, refl)
one_failure (suc j) less = absurd (omega arith)

second_answer : reply warming_up on_air "s" 1 (broadcasting).runtime ≡ ok snapshot
unfolding reply
second_answer = refl

fetch_http_stream_lem_example : (fetch_http_stream warming_up "b" "s" broadcasting).0 ≡ ok snapshot
fetch_http_stream_lem_example =
    fetch_http_stream_lem warming_up on_air "s" "b" broadcasting 1 snapshot stored live
      (omega arith) one_failure second_answer

fetch_http_stream-Throws_example : Throws "a" (fetch_http_stream warming_up "a" "s" broadcasting).0
fetch_http_stream-Throws_example = fetch_http_stream-Throws warming_up "a" "s" broadcasting

abbrev first_id : String
first_id = "sess_0000000000000001"

abbrev starting_system : System ℕ
starting_system =
    run (creates "name" "graph" none (1 ∷ []) 10 ∷ begins start_request first_id ∷ []) (initial 0)

starting_system-Inv : Inv starting_system
starting_system-Inv =
    run-Inv (creates "name" "graph" none (1 ∷ []) 10 ∷ begins start_request first_id ∷ [])
      (initial 0) (initial-Inv 0)

starting_in_flight : 0 < in_flight first_id (starting_system).calls
unfolding run step begin create create_with create_session unused_id generate_session_id in_flight
    start_begin Storage.get Storage.create find insert hex_padded
starting_in_flight = omega arith

streams_in_flight_example :
    (active_stream_plan warming_up first_id (starting_system).world
      ≡ (ok none, (starting_system).world))
    × (fetch_http_stream warming_up first_id "s" (starting_system).world ≡ (
      err (invalid_state_error ("session is not running: " <> first_id)),
      (starting_system).world,
    ))
    × (resolve_websocket_stream warming_up first_id "s" (starting_system).world ≡ (
      err (invalid_state_error ("session is not running: " <> first_id)),
      (starting_system).world,
    ))
streams_in_flight_example =
    streams_in_flight warming_up starting_system starting_system-Inv first_id "s" starting_in_flight
