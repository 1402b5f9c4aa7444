-- ===== src/Runtime/Gr4/Refused.antt =====
-- `Gr4RuntimeManager::prepare` of src/runtime/gr4_runtime_manager.cpp where a graph or a scheduler
-- fails to load.
use gnuradio4_control_plane.Prelude.{
  ℕ, ◌≤◌, String, ◌≡◌, ap, ◌∙◌, none, some, List, [], false, find, find-insert, find-insert_same,
  ◌≢◌, arith, eq_iff,
}
use gnuradio4_control_plane.Errors.{Exception, err, ok, pure, continue, what}
use gnuradio4_control_plane.Pmt.{Pmt}
use gnuradio4_control_plane.Domain.Session.{Session}
use gnuradio4_control_plane.Domain.Stream.{RuntimeStreamBinding}
use gnuradio4_control_plane.Streams.Plan.{validate_stream_runtime_contract}
use gnuradio4_control_plane.Runtime.Allocator.{Sockets}
use gnuradio4_control_plane.Runtime.Allocator.Ports.{count}
use gnuradio4_control_plane.Runtime.Radio.{Radio}
use gnuradio4_control_plane.Runtime.Gr4.{Locked, Manager, is_stopping, session_error}
use gnuradio4_control_plane.Runtime.Gr4.Execute.{
  ensure_runtime_environment, load_scheduler, prepare_locked,
}
use gnuradio4_control_plane.Runtime.Gr4.Methods.{get_or_create_resources, prepare}
use gnuradio4_control_plane.Runtime.Gr4.Failure.{
  allocation, with_ports, entered, prepare_locked-Failed,
}

module _ (pmt : Pmt) {O W : Type 0} (sockets : Sockets O) (radio : Radio pmt W)
    (plugin_directories : List String) where
  open radio use {Scheduler}

  -- The state in which `prepare` calls `prepare_locked`.
  abbrev pub at_lock : Session → Manager O W Scheduler → Locked O W Scheduler
  unfolding get_or_create_resources
  at_lock session s = record {
    own = get_or_create_resources pmt sockets radio plugin_directories session.id s;
    shared = s.shared;
  }

  -- If the session has no execution, no bindings and is not being stopped, no port is held twice, the
  -- stream contract and the environment are in order, the ports of its streams are allocated, and
  -- the graph or the scheduler then fails with a `std::exception`, then `prepare` fails with its text,
  -- the resources of every session are as before, those of the session being fresh ones where it
  -- had none, and so is the number of holds on each port.
  pub prepare_failed :
      (session : Session) (s : Manager O W Scheduler) (bindings : List RuntimeStreamBinding)
      (e : Exception) (text : String)
      → is_stopping (at_lock session s).own.lifecycle_phase ≡ false
      → (at_lock session s).own.execution ≡ none
      → (at_lock session s).own.stream_bindings ≡ []
      → ((port : ℕ) → count port s.shared.stream_allocator.allocated_ports ≤ 1)
      → validate_stream_runtime_contract pmt session ≡ none
      → (ensure_runtime_environment pmt sockets radio plugin_directories (at_lock session s)).0
        ≡ ok tt
      → let t = entered pmt sockets radio plugin_directories (at_lock session s) in
        (allocation pmt sockets radio plugin_directories session t).0 ≡ ok bindings
        → let t = entered pmt sockets radio plugin_directories (at_lock session s) in
          (load_scheduler pmt sockets radio plugin_directories session bindings (
              with_ports pmt sockets radio plugin_directories
                (allocation pmt sockets radio plugin_directories session t).1
                t)).0
            ≡ err e
          → what e ≡ some text
          → let m = prepare pmt sockets radio plugin_directories session s in
            (m.0 ≡ err (session_error session "prepare" text))
            × (find session.id m.1.resources ≡ some (at_lock session s).own)
            × ((id : String) → session.id ≢ id → find id m.1.resources ≡ find id s.resources)
            × ((port : ℕ)
                → count port m.1.shared.stream_allocator.allocated_ports
                  ≡ count port s.shared.stream_allocator.allocated_ports)
  unfolding prepare get_or_create_resources
  prepare_failed session s bindings e text phase new bare single valid ready allocated fails says =
      let m = prepare_locked pmt sockets radio plugin_directories session (at_lock session s) in
      let (thrown, own, held) =
        prepare_locked-Failed pmt sockets radio plugin_directories session (at_lock session s)
          bindings e text phase new bare single valid ready allocated fails says in
      let next : (continue m.0 (λ _. pure tt) m.1).1 ≡ m.1 =
        ap (λ r. (continue r (λ _. pure tt) m.1).1) thrown in
      (
        ap (λ r. (continue r (λ _. pure tt) m.1).0) thrown,
        find-insert_same session.id _ s.resources
            ∙ ap (λ (n : Locked O W Scheduler). some n.own) next
            ∙ ap some own,
        λ id other. ground (
          arith,
          find-insert session.id id (continue m.0 (λ _. pure tt) m.1).1.own s.resources,
          eq_iff session.id id,
        ),
        λ port.
            ap (λ (n : Locked O W Scheduler). count port n.shared.stream_allocator.allocated_ports)
              next
            ∙ held port,
      )
