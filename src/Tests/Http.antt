-- ===== src/Tests/Http.antt =====
-- The session routes on small inputs.
use gnuradio4_control_plane.Prelude.{
  ℕ, ◌+◌, ◌<◌, String, ◌≡◌, refl, ap, Bool, true, false, Option, none, some, List, [], ◌∷◌, Assoc,
  arith, find, insert, if◌then◌else◌, ◌==◌,
}
use gnuradio4_control_plane.Errors.{ok, err, std_error}
use gnuradio4_control_plane.Runtime.{RuntimeManager}
use gnuradio4_control_plane.Catalog.{ℤ}
use gnuradio4_control_plane.Json.{JsonLibrary}
use gnuradio4_control_plane.Storage
use gnuradio4_control_plane.Service.State.{World}
use gnuradio4_control_plane.Service.Ids
use gnuradio4_control_plane.Service.Ids.{
  create, create_with, create_session, unused_id, generate_session_id, hex_padded,
}
use gnuradio4_control_plane.Service.Operations.{start_begin}
use gnuradio4_control_plane.Service.Schedule.{
  System, creates, begins, start_request, remove_request, run, step, begin,
}
use gnuradio4_control_plane.Service.Schedule.Exclusion.{Inv, run-Inv, in_flight}
use gnuradio4_control_plane.Service.Schedule.InFlight.{initial, initial-Inv}
use gnuradio4_control_plane.Service.Schedule.Alone.{alone}
use gnuradio4_control_plane.Service.Refinement.{specified, view}
use gnuradio4_control_plane.Http.Sessions.Conflicts.{
  route, response, route-specified, route-in_flight,
}

mutual
  pub data Tree : Type 0 where
    null : Tree
    boolean : Bool → Tree
    integer : ℤ → Tree
    text : String → Tree
    array : Items → Tree
    object : Members → Tree

  pub data Members : Type 0 where
    no_member : Members
    member : String → Tree → Members → Members

  pub data Items : Type 0 where
    no_item : Items
    item : Tree → Items → Items

abbrev of_members : Assoc Tree → Members
of_members [] = no_member
of_members ((k, v) ∷ m) = member k v (of_members m)

abbrev of_items : List Tree → Items
of_items [] = no_item
of_items (x ∷ xs) = item x (of_items xs)

abbrev lookup : String → Members → Option Tree
lookup key no_member = none
lookup key (member k v m) = if k == key then some v else lookup key m

abbrev member_of : String → Tree → Option Tree
member_of key (object m) = lookup key m
member_of key _ = none

abbrev text_of : Tree → Option String
text_of (text s) = some s
text_of _ = none

abbrev null_test : Tree → Bool
null_test null = true
null_test _ = false

pub lookup-of_members : (key : String) (m : Assoc Tree) → lookup key (of_members m) ≡ find key m
unfolding find
lookup-of_members key [] = refl
lookup-of_members key ((k, v) ∷ m) =
    ap (λ rest. if k == key then some v else rest) (lookup-of_members key m)

abbrev creation : Assoc Tree
creation = ("name", text "radio") ∷ ("grc", text "graph") ∷ ("scheduler_id", text "simple") ∷ []

-- The only text that is read is "create".
abbrev pub trees : JsonLibrary
trees = record {
  Json = Tree;
  Double = ℕ;
  null = null;
  boolean = boolean;
  integer = integer;
  double = λ d. null;
  text = text;
  array = λ xs. array (of_items xs);
  object = λ m. object (of_members m);
  is_null = null_test;
  as_text = text_of;
  member = member_of;
  parse = λ s. if s == "create" then some (object (of_members creation)) else none;
  dump = λ j. "";
  is_null-null = refl;
  is_null-text = λ s. refl;
  as_text-text = λ s. refl;
  member-object = λ key m. lookup-of_members key m;
}

abbrev pub no_date : ℕ → String
no_date n = ""

abbrev pub counting : RuntimeManager ℕ ℕ
counting = record {
  prepare = λ session n. (ok tt, n + 1);
  start = λ session n. (ok tt, n + 1);
  stop = λ session n. (ok tt, n + 1);
  destroy = λ session n. (err (std_error "busy"), n + 1);
  active_stream_plan = λ session n. (ok none, n);
  fetch_http_stream = λ session stream_id n. (err (std_error "none"), n);
  resolve_websocket_stream = λ session stream_id n. (err (std_error "none"), n);
  set_block_settings = λ session block patch mode n. (ok tt, n);
  get_block_settings = λ session block n. (ok 0, n);
}

abbrev empty_world : World ℕ
empty_world = record { repository = []; phases = []; runtime = 0 }

abbrev first_id : String
first_id = "sess_0000000000000001"

abbrev one_session : System ℕ
one_session = run (creates "radio" "graph" none (1 ∷ []) 10 ∷ []) (initial 0)

one_session-Inv : Inv (alone (one_session).world)
unfolding run step create create_with create_session unused_id generate_session_id Storage.get
    Storage.create find insert hex_padded
one_session-Inv =
    run-Inv (creates "radio" "graph" none (1 ∷ []) 10 ∷ []) (initial 0) (initial-Inv 0)

route-specified_example :
    (route trees no_date counting remove_request first_id 11 (one_session).world).0
    ≡ response trees no_date counting
        (specified counting remove_request first_id 11 (view counting (one_session).world)).0
route-specified_example =
    route-specified trees no_date counting remove_request first_id 11 (one_session).world
      one_session-Inv

abbrev starting_system : System ℕ
starting_system =
    run (creates "radio" "graph" none (1 ∷ []) 10 ∷ begins start_request first_id ∷ []) (initial 0)

starting_system-Inv : Inv starting_system
starting_system-Inv =
    run-Inv (creates "radio" "graph" none (1 ∷ []) 10 ∷ begins start_request first_id ∷ [])
      (initial 0) (initial-Inv 0)

starting_in_flight : 0 < in_flight first_id (starting_system).calls
unfolding run step begin create create_with create_session unused_id generate_session_id in_flight
    start_begin Storage.get Storage.create find insert hex_padded
starting_in_flight = omega arith

route-in_flight_example :
    ((route trees no_date counting remove_request first_id 11 (starting_system).world).0.status
      ≡ 409)
    × ((route trees no_date counting remove_request first_id 11 (starting_system).world).1
        ≡ (starting_system).world)
route-in_flight_example =
    route-in_flight trees no_date counting starting_system starting_system-Inv remove_request
      first_id 11 starting_in_flight
