-- ===== src/Runtime/Gr4/Execute.antt =====
-- The private methods of `Gr4RuntimeManager` (src/runtime/gr4_runtime_manager.cpp) that work under the
-- mutex of a session's resources: `prepare_locked`, and `start` behind it.
use gnuradio4_control_plane.Prelude.{
  ℕ, ◌+◌, ◌%◌, ◌^◌, String, true, false, ◌&&◌, Option, none, some, List, [], ◌∷◌, if◌then◌else◌,
  ◌==◌, ◌<>◌, nat_eq, length,
}
use gnuradio4_control_plane.Errors.{
  Exec, Exception, Result, ok, err, pure, throw, lift, ◌>>=◌, ◌>>◌, std_error, what,
}
use gnuradio4_control_plane.Pmt.{Pmt}
use gnuradio4_control_plane.Domain.Session.{Session}
use gnuradio4_control_plane.Domain.Stream.{
  RuntimeStreamBindingPlan, StreamRuntimePlan, InternalStreamBinding, RuntimeStreamBinding,
  to_browser_stream_descriptor,
}
use gnuradio4_control_plane.Streams.Blocks.{value_or}
use gnuradio4_control_plane.Streams.Plan.{
  derive_stream_runtime_plan, validate_stream_runtime_contract,
}
use gnuradio4_control_plane.Runtime.Allocator.{
  Sockets, Allocator, allocate_http, allocate_websocket,
}
use gnuradio4_control_plane.Runtime.Graph.{normalize_graph_content}
use gnuradio4_control_plane.Runtime.Radio.{Radio}
use gnuradio4_control_plane.Runtime.Gr4.{
  idle, starting, running, is_running, is_stopping, Execution, Locked, session_error,
  bootstrap_error, throw_kept, preferred_scheduler, set_own, release_bindings,
  release_stream_bindings_locked, on_allocator, on_radio,
}

abbrev pub bound : RuntimeStreamBindingPlan → InternalStreamBinding → RuntimeStreamBinding
bound plan internal = record {
  plan = record plan { ready = true };
  internal = internal;
  browser = to_browser_stream_descriptor (record plan { ready = true });
}

abbrev pub streams_or : Option StreamRuntimePlan → List RuntimeStreamBindingPlan
streams_or none = []
streams_or (some plan) = plan.streams

-- `uint64_t` wraps around.
abbrev pub next_generation : ℕ → ℕ
next_generation n = (n + 1) % 2 ^ 64

module _ (pmt : Pmt) {O W : Type 0} (sockets : Sockets O) (radio : Radio pmt W)
    (plugin_directories : List String) where
  open radio use {Graph, Scheduler}

  abbrev pub State : Type 0
  State = Locked O W Scheduler

  abbrev pub bootstrap_all : Exec W (Unit {0})
  bootstrap_all =
      if nat_eq (length plugin_directories) 0
      then throw (std_error "no GNU Radio 4 plugin directories are configured")
      else radio.bootstrap plugin_directories

  abbrev pub bootstrap_once : Option (Option String) → Exec State (Unit {0})
  bootstrap_once (some kept) s = throw_kept kept s
  bootstrap_once none s =
      let (result, world) = bootstrap_all s.shared.radio in
      let next = record s {
        shared = record s.shared { radio = world; bootstrapped = bootstrap_error result };
      } in
      elim (bootstrap_error result) [ some kept ↦ throw_kept kept next | none ↦ (result, next) ]

  unfoldable pub ensure_runtime_environment : Exec State (Unit {0})
  ensure_runtime_environment s = bootstrap_once s.shared.bootstrapped s

  unfoldable pub default_scheduler_alias : Exec State String
  unfolding preferred_scheduler
  default_scheduler_alias = do
    available ← on_radio radio.available_schedulers
    pure (preferred_scheduler available)

  -- The loop over the plan: an exception leaves the ports of the earlier streams allocated.
  unfoldable pub allocate_streams :
      List RuntimeStreamBindingPlan → Exec (Allocator O) (List RuntimeStreamBinding)
  allocate_streams [] = pure []
  allocate_streams (plan ∷ plans) = do
    internal ←
        (if plan.transport == "websocket"
          then allocate_websocket sockets
          else allocate_http sockets)
    bindings ← allocate_streams plans
    pure (bound plan internal ∷ bindings)

  -- The `try` block, from its last step to its first. The default alias is looked up whether it is
  -- used or not.
  abbrev pub set_graph : Graph → Scheduler → Exec State Scheduler
  set_graph graph scheduler = do on_radio (radio.set_graph scheduler graph); pure scheduler

  abbrev pub set_graph_or : Session → Graph → String → Option Scheduler → Exec State Scheduler
  set_graph_or session graph alias none =
      throw (session_error session "prepare" ("scheduler not found: " <> alias))
  set_graph_or session graph alias (some scheduler) = set_graph graph scheduler

  abbrev pub instantiate : Session → Graph → String → Exec State Scheduler
  instantiate session graph alias =
      on_radio (radio.instantiate_scheduler alias) >>= set_graph_or session graph alias

  abbrev pub instantiate_or : Session → Graph → String → Exec State Scheduler
  instantiate_or session graph default_alias =
      instantiate session graph (value_or session.scheduler_alias default_alias)

  abbrev pub load_from : Session → Graph → Exec State Scheduler
  load_from session graph = default_scheduler_alias >>= instantiate_or session graph

  abbrev pub load_graph : Session → String → Exec State Scheduler
  load_graph session content = on_radio (radio.load_grc content) >>= load_from session

  unfoldable pub load_scheduler : Session → List RuntimeStreamBinding → Exec State Scheduler
  unfolding default_scheduler_alias session_error
  load_scheduler session bindings =
      lift (normalize_graph_content pmt session.grc_content bindings) >>= load_graph session

  -- The handler: the ports are released and the exception is thrown again with a text; one that is no
  -- `std::exception` passes by.
  abbrev pub failed_load :
      Session
      → List RuntimeStreamBinding
      → Exception
      → Option String
      → Exec State (Execution Scheduler)
  failed_load session bindings e none = throw e
  failed_load session bindings e (some text) = do
    release_bindings bindings
    throw (session_error session "prepare" text)

  abbrev pub loaded :
      Session → List RuntimeStreamBinding → Result Scheduler → Exec State (Execution Scheduler)
  loaded session bindings (err e) = failed_load session bindings e (what e)
  loaded session bindings (ok scheduler) = do
    let execution : Execution Scheduler = record { scheduler = scheduler; running = false }
    set_own (λ own. record own {
      execution = some execution;
      stream_bindings = bindings;
      generation = next_generation own.generation;
      lifecycle_phase = idle;
      teardown_complete = true;
      teardown_error = none;
    })
    pure execution

  abbrev pub load_execution : Session → List RuntimeStreamBinding → Exec State (Execution Scheduler)
  load_execution session bindings s =
      loaded session bindings (load_scheduler session bindings s).0
        (load_scheduler session bindings s).1

  abbrev pub throw_error : Session → Option String → Exec State (Unit {0})
  throw_error session none = pure tt
  throw_error session (some error) = throw (session_error session "prepare" error)

  abbrev pub allocate_and_load : Session → Exec State (Execution Scheduler)
  allocate_and_load session =
      on_allocator (allocate_streams (streams_or (derive_stream_runtime_plan pmt session)))
      >>= load_execution session

  unfoldable pub prepare_new : Session → Exec State (Execution Scheduler)
  unfolding ensure_runtime_environment release_stream_bindings_locked allocate_streams
      load_scheduler session_error
  prepare_new session = do
    throw_error session (validate_stream_runtime_contract pmt session)
    ensure_runtime_environment
    release_stream_bindings_locked
    allocate_and_load session

  abbrev pub prepared_or : Session → Option (Execution Scheduler) → Exec State (Execution Scheduler)
  prepared_or session (some execution) = pure execution
  prepared_or session none = prepare_new session

  unfoldable pub prepare_locked : Session → Exec State (Execution Scheduler)
  unfolding prepare_new session_error
  prepare_locked session s =
      if is_stopping s.own.lifecycle_phase
      then (
        err (session_error session "prepare" "session runtime teardown is still in progress"),
        s,
      )
      else prepared_or session s.own.execution s

  abbrev pub run_execution : Execution Scheduler → Exec State (Unit {0})
  run_execution execution = do
    set_own (λ own. record own {
      async_error = none;
      teardown_error = none;
      teardown_complete = false;
      lifecycle_phase = starting;
    })
    on_radio (radio.start execution.scheduler)
    set_own (λ own. record own {
      execution = some (record execution { running = true });
      lifecycle_phase = running;
    })

  abbrev pub start_prepared : Session → Execution Scheduler → Exec State (Unit {0})
  start_prepared session execution s =
      if is_stopping s.own.lifecycle_phase
      then (err (session_error session "start" "session runtime teardown is still in progress"), s)
      else if execution.running && is_running s.own.lifecycle_phase
      then (ok tt, s)
      else run_execution execution s

  unfoldable pub start_locked : Session → Exec State (Unit {0})
  unfolding prepare_locked session_error
  start_locked session = do execution ← prepare_locked session; start_prepared session execution
