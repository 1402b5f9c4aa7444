-- ===== src/Runtime/Stub/Balance.antt =====
-- The ports that the allocator of src/runtime/stub_runtime_manager.cpp holds, against the bindings
-- that are stored.
use gnuradio4_control_plane.Prelude.{
  ℕ, ◌≤◌, String, ◌≡◌, refl, Bool, true, false, inl, inr, Option, none, some, List, [], ◌∷◌, ◌++◌,
  arith, if◌then◌else◌, ◌==◌, Option-cases, find, IsMap, insert-IsMap, erase-IsMap, total,
  total-insert, total-erase,
}
use gnuradio4_control_plane.Errors.{Result, ok, err, Result-cases, continue}
use gnuradio4_control_plane.Pmt.{Pmt}
use gnuradio4_control_plane.Domain.Session.{Session}
use gnuradio4_control_plane.Domain.Stream.{
  RuntimeStreamBindingPlan, StreamRuntimePlan, InternalStreamBinding, RuntimeStreamBinding,
}
use gnuradio4_control_plane.Streams.Plan.{
  derive_stream_runtime_plan, validate_stream_runtime_contract,
}
use gnuradio4_control_plane.Runtime.Allocator.{
  Sockets, Allocator, allocate_http, allocate_websocket,
}
use gnuradio4_control_plane.Runtime.Allocator.Ports.{
  count, Adds, AddsPort, port_of, allocate_http-Adds, allocate_websocket-Adds,
}
use gnuradio4_control_plane.Runtime.Allocator.Bindings.{
  port_count, port_count-append, count-release_all,
}
use gnuradio4_control_plane.Runtime.Stub.{
  Stub, State, list_or, released, release_streams, open_entry, push_binding, add_stream,
  add_streams, add_plan, prepare, stop, destroy,
}

pub record Balanced {O V : Type 0} (s : Stub O V) : Type 0 where
  pub keyed : IsMap s.stream_bindings
  pub held :
      (port : ℕ)
      → count port s.stream_allocator.allocated_ports ≡ total (port_count port) s.stream_bindings
  pub single : (port : ℕ) → count port s.stream_allocator.allocated_ports ≤ 1

module _ {O V : Type 0} (id : String) (s : Stub O V) (v : Balanced s) where
  released-Balanced :
      (o : Option (List RuntimeStreamBinding))
      → find id s.stream_bindings ≡ o
      → Balanced (released id s o)
  released-Balanced none e = v
  released-Balanced (some bindings) e = record {
    keyed = erase-IsMap id s.stream_bindings v.keyed;
    held = λ port. ground (
      arith,
      count-release_all port bindings s.stream_allocator,
      v.held port,
      v.single port,
      total-erase (port_count port) id s.stream_bindings v.keyed,
      e,
    );
    single =
        λ port. ground (arith, count-release_all port bindings s.stream_allocator, v.single port);
  }

  pub release_streams-Balanced : Balanced (release_streams id s).1
  unfolding release_streams
  release_streams-Balanced = released-Balanced _ refl

  pub open_entry-Balanced : Balanced (open_entry id s).1
  unfolding open_entry port_count
  open_entry-Balanced = record {
    keyed = insert-IsMap id _ s.stream_bindings v.keyed;
    held = λ port. ground (
      arith,
      v.held port,
      total-insert (port_count port) id (list_or (find id s.stream_bindings)) s.stream_bindings,
    );
    single = v.single;
  }

module _ {O V : Type 0} (id : String) (s : Stub O V) (v : Balanced s) (b : RuntimeStreamBinding)
    (a' : Allocator O)
    (adds : AddsPort
      (some b.internal.port)
      s.stream_allocator.allocated_ports
      a'.allocated_ports) where
  abbrev with_allocator : Stub O V
  with_allocator = record s { stream_allocator = a' }

  push_binding-Balanced : Balanced (push_binding id b with_allocator).1
  unfolding push_binding port_count count
  push_binding-Balanced = record {
    keyed = insert-IsMap id _ s.stream_bindings v.keyed;
    held = λ port. rw adds.0 (
        ground (
          arith,
          v.held port,
          total-insert (port_count port) id (list_or (find id s.stream_bindings) ++ b ∷ [])
              s.stream_bindings,
          port_count-append port (list_or (find id s.stream_bindings)) b,
        ));
    single = λ port. rw adds.0 (ground (arith, v.single port, adds.1));
  }

module _ {O V : Type 0} (s : Stub O V) (v : Balanced s) where
  kept-Balanced :
      (a' : Allocator O)
      → a'.allocated_ports ≡ s.stream_allocator.allocated_ports
      → Balanced (record s { stream_allocator = a' })
  kept-Balanced a' e = record {
    keyed = v.keyed;
    held = λ port. rw e (v.held port);
    single = λ port. rw e (v.single port);
  }

  -- The rest of `add_stream`, after any allocation.
  pushed-Balanced :
      (id : String) (binding : InternalStreamBinding → RuntimeStreamBinding)
      → ((internal : InternalStreamBinding) → (binding internal).internal ≡ internal)
      → (r : Result InternalStreamBinding) (a' : Allocator O)
      → Adds port_of s.stream_allocator (r, a')
      → Balanced
          (continue r
            (λ internal. push_binding id (binding internal))
            (record s { stream_allocator = a' })).1
  pushed-Balanced id binding same (ok internal) a' adds =
      push_binding-Balanced id s v (binding internal) a' (rw (same internal) adds)
  pushed-Balanced id binding same (err e) a' adds = kept-Balanced a' adds

module _ (pmt : Pmt) {O : Type 0} (sockets : Sockets O) where
  allocate-Adds :
      (websocket : Bool) (a : Allocator O)
      → Adds port_of a ((if websocket then allocate_websocket sockets else allocate_http sockets) a)
  allocate-Adds true a = allocate_websocket-Adds sockets a
  allocate-Adds false a = allocate_http-Adds sockets a

  add_stream-Balanced :
      (id : String) (plan : RuntimeStreamBindingPlan) (s : State pmt sockets)
      → Balanced s
      → Balanced (add_stream pmt sockets id plan s).1
  unfolding add_stream
  add_stream-Balanced id plan s v =
      pushed-Balanced s v id _ (λ internal. refl) _ _
        (allocate-Adds (plan.transport == "websocket") s.stream_allocator)

  add_streams-Balanced :
      (id : String) (plans : List RuntimeStreamBindingPlan) (s : State pmt sockets)
      → Balanced s
      → Balanced (add_streams pmt sockets id plans s).1
  unfolding add_streams
  add_streams-Balanced id [] s v = v
  add_streams-Balanced id (plan ∷ plans) s v =
      let v' = add_stream-Balanced id plan s v in
      elim (Result-cases (add_stream pmt sockets id plan s).0) [
        | inl (done, e) ↦ rw (e, add_streams) (add_streams-Balanced id plans _ v')
        | inr (error, e) ↦ rw (e, add_streams) v'
      ]

  add_plan-Balanced :
      (id : String) (plan : Option StreamRuntimePlan) (s : State pmt sockets)
      → Balanced s
      → Balanced (add_plan pmt sockets id plan s).1
  unfolding open_entry
  add_plan-Balanced id none s v = v
  add_plan-Balanced id (some plan) s v =
      add_streams-Balanced id plan.streams (open_entry id s).1 (open_entry-Balanced id s v)

  -- `prepare`, `stop` and `destroy` keep the account of the ports, also where an allocation or the
  -- contract fails half-way.
  pub prepare-Balanced :
      (session : Session) (s : State pmt sockets)
      → Balanced s
      → Balanced (prepare pmt sockets session s).1
  unfolding prepare
  prepare-Balanced session s v =
      let v' = release_streams-Balanced session.id s v in
      elim (Option-cases (validate_stream_runtime_contract pmt session)) [
        | inl e ↦
            rw (e, prepare)
              (add_plan-Balanced session.id (derive_stream_runtime_plan pmt session) _ v')
        | inr (error, e) ↦ rw (e, prepare) v'
      ]

  pub stop-Balanced :
      (session : Session) (s : State pmt sockets)
      → Balanced s
      → Balanced (stop pmt sockets session s).1
  unfolding stop
  stop-Balanced session s v = release_streams-Balanced session.id s v

  pub destroy-Balanced :
      (session : Session) (s : State pmt sockets)
      → Balanced s
      → Balanced (destroy pmt sockets session s).1
  unfolding destroy
  destroy-Balanced session s v =
      let v' = release_streams-Balanced session.id s v in
      record { keyed = v'.keyed; held = v'.held; single = v'.single }
