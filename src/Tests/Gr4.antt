-- ===== src/Tests/Gr4.antt =====
-- The GNU Radio runtime manager on a small library, whose state counts the calls.
use gnuradio4_control_plane.Prelude.{
  ℕ, ◌+◌, ◌≤◌, String, ◌≡◌, ◌≢◌, refl, true, none, some, List, [], ◌∷◌, arith, find, insert, nat_eq,
  if◌then◌else◌, total,
}
use gnuradio4_control_plane.Errors.{Exec, ok, err, std_error, what}
use gnuradio4_control_plane.Domain.Session.{Session}
use gnuradio4_control_plane.Domain.Stream.{RuntimeStreamBinding, RuntimeStreamBindingPlan}
use gnuradio4_control_plane.Streams.Plan.{
  session_blocks, derive_stream_runtime_plan, binding_plan, validate_stream_runtime_contract,
}
use gnuradio4_control_plane.Runtime.Allocator.{
  Allocator, allocate_http, allocate_websocket, allocate_port, websocket_binding, http_binding,
  reserve_ephemeral_loopback_port, has_port, release_all,
}
use gnuradio4_control_plane.Runtime.Allocator.Ports.{count}
use gnuradio4_control_plane.Runtime.Allocator.Bindings.{port_count}
use gnuradio4_control_plane.Runtime.Radio.{Radio}
use gnuradio4_control_plane.Streams.Plan
use gnuradio4_control_plane.Runtime.Graph.{
  normalize_graph_content, normalize_blocks, normalize_connections, inject_stream_bindings,
  inject_blocks, managed_name, binding_of, first_filled, normalize_block,
}
use gnuradio4_control_plane.Streams.Blocks.{
  parameter_string, parameter_map, merged_parameters, add_missing,
}
use gnuradio4_control_plane.Runtime.Gr4.{
  running, release_stream_bindings_locked, preferred_scheduler, first_available, Locked, Manager,
  Resources, fresh_resources, session_error,
}
use gnuradio4_control_plane.Runtime.Gr4.Execute.{
  bound, start_locked, prepare_locked, prepare_new, ensure_runtime_environment, allocate_streams,
  default_scheduler_alias, load_scheduler, streams_or,
}
use gnuradio4_control_plane.Runtime.Gr4.Teardown.{stop_locked, destroy_locked}
use gnuradio4_control_plane.Runtime.Gr4.Methods.{
  get_or_create_resources, prepare, start, stop, destroy, active_stream_plan,
}
use gnuradio4_control_plane.Runtime.Gr4.Balance.{Balanced, lifecycle-Balanced}
use gnuradio4_control_plane.Runtime.Gr4.Failure.{allocation, with_ports, entered}
use gnuradio4_control_plane.Runtime.Gr4.Refused.{at_lock, prepare_failed}
use gnuradio4_control_plane.Runtime.Gr4.Stopped.{Ended, under, stop-Ended}
use gnuradio4_control_plane.Runtime.Gr4.Removed.{destroy-ended}
use gnuradio4_control_plane.Runtime.Gr4.Started.{announced}
use gnuradio4_control_plane.Runtime.Gr4.Active.{active_stream_plan-start}
use gnuradio4_control_plane.Tests.Values.{nodes}
use gnuradio4_control_plane.Tests.Streams.{graph, listed, two_plans}

abbrev called : {A : Type 0} → A → Exec ℕ A
called a calls = (ok a, calls + 1)

-- It has one scheduler, the name of which it gives back.
abbrev small_radio : (String → Exec ℕ String) → Radio nodes ℕ
small_radio load = record {
  Graph = String;
  Scheduler = String;
  bootstrap = λ directories. called tt;
  load_grc = load;
  available_schedulers = called ("gr::scheduler::SimpleSingle" ∷ []);
  instantiate_scheduler = λ alias. called (some alias);
  set_graph = λ scheduler graph. called tt;
  start = λ scheduler. called tt;
  stop = λ scheduler. called tt;
  runtime_blocks = λ scheduler calls. some [];
  request_set = λ scheduler block endpoint patch. called tt;
  request_get = λ scheduler block endpoint. called [];
  http_get = λ host port path. called none;
}

abbrev working : Radio nodes ℕ
working = small_radio (λ content. called content)

abbrev broken : Radio nodes ℕ
broken = small_radio (λ content calls. (err (std_error "no such block"), calls))

abbrev plugins : List String
plugins = "/usr/lib" ∷ []

abbrev studio : Session
studio = record graph { grc_content = "studio" }

abbrev bindings_with : ℕ → List RuntimeStreamBindingPlan → List RuntimeStreamBinding
bindings_with port (a ∷ b ∷ []) =
    bound a (websocket_binding port) ∷ bound b (http_binding (port + 1)) ∷ []
bindings_with port _ = []

abbrev bindings_on : ℕ → List RuntimeStreamBinding
bindings_on port = bindings_with port (two_plans).streams

abbrev four_ports : Allocator (List ℕ)
four_ports = record { allocated_ports = []; os = 5 ∷ 6 ∷ 7 ∷ 8 ∷ [] }

abbrev idle_manager : Manager (List ℕ) ℕ String
idle_manager = record {
  resources = [];
  shared = record { stream_allocator = four_ports; radio = 0; bootstrapped = none };
}

idle-Balanced : Balanced idle_manager
unfolding count total
idle-Balanced = record { keyed = tt; held = (λ port. omega arith, λ port. omega arith) }

lifecycle-Balanced_example :
    Balanced (prepare nodes listed working plugins studio idle_manager).1
    × Balanced (start nodes listed working plugins studio idle_manager).1
    × Balanced (stop nodes listed working plugins studio idle_manager).1
    × Balanced (destroy nodes listed working plugins studio idle_manager).1
lifecycle-Balanced_example =
    lifecycle-Balanced nodes listed working plugins studio idle_manager idle-Balanced

start_ok : (start nodes listed working plugins studio idle_manager).0 ≡ ok tt
unfolding start get_or_create_resources start_locked prepare_locked prepare_new
    ensure_runtime_environment release_stream_bindings_locked release_all allocate_streams
    load_scheduler default_scheduler_alias preferred_scheduler first_available
    normalize_graph_content normalize_blocks normalize_block normalize_connections
    inject_stream_bindings inject_blocks managed_name binding_of first_filled parameter_string
    parameter_map merged_parameters add_missing derive_stream_runtime_plan session_blocks find
    insert Plan.plan_streams Plan.validate_stream_block Plan.contract_error binding_plan what
    validate_stream_runtime_contract allocate_http allocate_websocket allocate_port
    reserve_ephemeral_loopback_port has_port
start_ok = refl

active_stream_plan-start_example :
    (active_stream_plan nodes listed working plugins studio
      (start nodes listed working plugins studio idle_manager).1).0
    ≡ ok (announced (streams_or (derive_stream_runtime_plan nodes studio)))
unfolding find
active_stream_plan-start_example =
    active_stream_plan-start nodes listed working plugins studio idle_manager refl start_ok

-- A session that runs with streams on the ports 5 and 6; port 9 is another's.
abbrev running_resources : Resources String
running_resources = record (fresh_resources "s") {
  lifecycle_phase = running;
  execution = some (record { scheduler = "gr::scheduler::SimpleSingle"; running = true });
  stream_bindings = bindings_on 5;
}

abbrev running_manager : Manager (List ℕ) ℕ String
running_manager = record {
  resources = ("s", running_resources) ∷ [];
  shared = record {
    stream_allocator = record { allocated_ports = 5 ∷ 6 ∷ 9 ∷ []; os = [] };
    radio = 7;
    bootstrapped = some none;
  };
}

found_running : find "s" (running_manager).resources ≡ some running_resources
unfolding find
found_running = refl

stop_ok : (stop nodes listed working plugins studio running_manager).0 ≡ ok tt
unfolding stop stop_locked find release_stream_bindings_locked
stop_ok = refl

destroy_ok : (destroy nodes listed working plugins studio running_manager).0 ≡ ok tt
unfolding destroy destroy_locked stop_locked find release_stream_bindings_locked
destroy_ok = refl

stop-Ended_example :
    (r' : Resources String) × (find "s"
        (stop nodes listed working plugins studio running_manager).1.resources
      ≡ some r')
    × Ended (under nodes listed working plugins running_resources running_manager) (
        under nodes listed working plugins r'
          (stop nodes listed working plugins studio running_manager).1)
stop-Ended_example =
    stop-Ended nodes listed working plugins studio running_manager running_resources found_running
      stop_ok

destroy-ended_example :
    let s' = (destroy nodes listed working plugins studio running_manager).1 in
    (find "s" s'.resources ≡ none)
    × ((id : String) → "s" ≢ id → find id s'.resources ≡ find id (running_manager).resources)
    × ((port : ℕ)
        → count port s'.shared.stream_allocator.allocated_ports ≡ (
            if nat_eq (port_count port (running_resources).stream_bindings) 0
            then count port (running_manager).shared.stream_allocator.allocated_ports
            else 0))
destroy-ended_example =
    destroy-ended nodes listed working plugins studio running_manager running_resources
      found_running destroy_ok

-- A new session whose graph the library does not load.
abbrev new_session : Locked (List ℕ) ℕ String
new_session =
    entered nodes listed broken plugins (at_lock nodes listed broken plugins studio idle_manager)

single_ports : (port : ℕ) → count port (four_ports).allocated_ports ≤ 1
unfolding count
single_ports port = omega arith

allocated_two : (allocation nodes listed broken plugins studio new_session).0 ≡ ok (bindings_on 5)
unfolding allocate_streams derive_stream_runtime_plan session_blocks find insert Plan.plan_streams
    Plan.validate_stream_block binding_plan validate_stream_runtime_contract allocate_http
    allocate_websocket allocate_port reserve_ephemeral_loopback_port has_port
    ensure_runtime_environment release_stream_bindings_locked get_or_create_resources release_all
allocated_two = refl

load_fails :
    (load_scheduler nodes listed broken plugins studio (bindings_on 5) (
      with_ports nodes listed broken plugins
        (allocation nodes listed broken plugins studio new_session).1
        new_session)).0
    ≡ err (std_error "no such block")
unfolding load_scheduler normalize_graph_content normalize_blocks normalize_block
    normalize_connections inject_stream_bindings inject_blocks managed_name binding_of first_filled
    parameter_string parameter_map merged_parameters add_missing find insert Plan.member
load_fails = refl

prepare_failed_example :
    let m = prepare nodes listed broken plugins studio idle_manager in
    (m.0 ≡ err (session_error studio "prepare" "no such block"))
    × (find "s" m.1.resources ≡ some (fresh_resources "s"))
    × ((id : String) → "s" ≢ id → find id m.1.resources ≡ find id (idle_manager).resources)
    × ((port : ℕ)
        → count port m.1.shared.stream_allocator.allocated_ports
          ≡ count port (idle_manager).shared.stream_allocator.allocated_ports)
unfolding what find get_or_create_resources session_blocks Plan.plan_streams
    Plan.validate_stream_block binding_plan validate_stream_runtime_contract
    ensure_runtime_environment Plan.contract_error
prepare_failed_example =
    prepare_failed nodes listed broken plugins studio idle_manager (bindings_on 5)
      (std_error "no such block") "no such block" refl refl refl single_ports refl refl
      allocated_two load_fails refl
