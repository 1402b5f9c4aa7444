-- ===== src/Tests/Streams.antt =====
-- Stream plans, ports and the stub runtime manager on small inputs.
use gnuradio4_control_plane.Prelude.{
  ℕ, zero, suc, ◌≡◌, ◌≢◌, refl, true, false, Option, none, some, List, [], ◌∷◌, arith, find, All,
  Distinct, map, Assoc, IsMap,
}
use gnuradio4_control_plane.Errors.{ok}
use gnuradio4_control_plane.Domain.Session.{Session, stopped}
use gnuradio4_control_plane.Domain.Stream.{StreamRuntimePlan}
use gnuradio4_control_plane.Streams.Plan
use gnuradio4_control_plane.Streams.Plan.{
  session_blocks, derive_stream_runtime_plan, validate_stream_runtime_contract, binding_plan,
}
use gnuradio4_control_plane.Streams.Plan.Validity.{
  IsValid, derived, derive_stream_runtime_plan-derived, derive_stream_runtime_plan-IsValid,
}
use gnuradio4_control_plane.Runtime.Allocator.{
  Sockets, Allocator, allocate_http, http_binding, reserve_ephemeral_loopback_port, has_port,
}
use gnuradio4_control_plane.Runtime.Allocator.Ports.{
  count, Adds, port_of, allocate_http-Adds, allocate_http-first, AllTaken, offer,
}
use gnuradio4_control_plane.Runtime.Stub
use gnuradio4_control_plane.Runtime.Stub.{Stub, State}
use gnuradio4_control_plane.Runtime.Stub.Balance.{Balanced, prepare-Balanced}
use gnuradio4_control_plane.Prelude.{total}
use gnuradio4_control_plane.Tests.Values.{Node, text, nodes}

abbrev pub graph : Session
graph = record {
  id = "s";
  name = "graph";
  grc_content = "two";
  scheduler_alias = none;
  state = stopped;
  last_error = none;
  created_at = 0;
  updated_at = 0;
}

derive_stream_runtime_plan-derived_example :
    derive_stream_runtime_plan nodes graph
    ≡ derived nodes graph
        (session_blocks nodes graph)
        (validate_stream_runtime_contract nodes graph)
derive_stream_runtime_plan-derived_example = derive_stream_runtime_plan-derived nodes graph

abbrev pub two_plans : StreamRuntimePlan
two_plans = record {
  streams =
      record {
        stream_id = "scope";
        block_instance_name = "scope";
        transport = "websocket";
        payload_format = "series";
        path = "/sessions/s/streams/scope/ws";
        ready = true;
      }
      ∷ record {
        stream_id = "power";
        block_instance_name = "power";
        transport = "http_poll";
        payload_format = "series";
        path = "/sessions/s/streams/power/http";
        ready = true;
      }
      ∷ [];
}

graph-two_plans : derive_stream_runtime_plan nodes graph ≡ some two_plans
unfolding derive_stream_runtime_plan session_blocks find Plan.plan_streams
    Plan.validate_stream_block binding_plan
graph-two_plans = refl

derive_stream_runtime_plan-IsValid_example :
    All (IsValid graph) (two_plans).streams
    × Distinct (map (λ stream. stream.stream_id) (two_plans).streams)
    × ((two_plans).streams ≢ [])
derive_stream_runtime_plan-IsValid_example =
    derive_stream_runtime_plan-IsValid nodes graph two_plans graph-two_plans

-- The sockets bring the ports of a list.
abbrev next_port : List ℕ → Option ℕ × List ℕ
next_port [] = (none, [])
next_port (port ∷ ports) = (some port, ports)

abbrev pub listed : Sockets (List ℕ)
listed = record {
  socket = λ ports. (true, ports);
  bind = λ ports. (true, ports);
  bound_port = next_port;
  close = λ ports. ports;
}

-- Port 5 is taken, and the system offers it again first.
abbrev five_taken : Allocator (List ℕ)
five_taken = record { allocated_ports = 5 ∷ []; os = 5 ∷ 6 ∷ 7 ∷ [] }

allocate_http-Adds_example : Adds port_of five_taken (allocate_http listed five_taken)
allocate_http-Adds_example = allocate_http-Adds listed five_taken

five-AllTaken : AllTaken listed 1 (five_taken).allocated_ports (five_taken).os
unfolding AllTaken offer reserve_ephemeral_loopback_port has_port
five-AllTaken zero less = (5, refl, refl)
five-AllTaken (suc j) less = absurd (omega arith)

six_offered : offer listed 1 (five_taken).os ≡ ok 6
unfolding offer reserve_ephemeral_loopback_port
six_offered = refl

six_free : has_port 6 (five_taken).allocated_ports ≡ false
unfolding has_port
six_free = refl

allocate_http-first_example : (allocate_http listed five_taken).0 ≡ ok (http_binding 6)
allocate_http-first_example =
    allocate_http-first listed 1 five_taken 6 (omega arith) five-AllTaken six_offered six_free

abbrev unused : Stub (List ℕ) Node
unused = record {
  stream_allocator = record { allocated_ports = []; os = 5 ∷ 5 ∷ 6 ∷ [] };
  stream_bindings = [];
  settings = [];
}

unused-Balanced : Balanced unused
unfolding count total
unused-Balanced = record { keyed = tt; held = λ port. refl; single = λ port. omega arith }

prepare-Balanced_example : Balanced (Stub.prepare nodes listed graph unused).1
prepare-Balanced_example = prepare-Balanced nodes listed graph unused unused-Balanced

abbrev patch : Assoc Node
patch = ("gain", text "2") ∷ []

patch-IsMap : IsMap patch
unfolding find
patch-IsMap = (refl, tt)
