-- ===== src/Runtime/Gr4/Failure.antt =====
-- A load of a graph that fails, in `prepare_locked` of src/runtime/gr4_runtime_manager.cpp.
use gnuradio4_control_plane.Prelude.{
  ℕ, ◌≤◌, String, ◌≡◌, refl, sym, ap, ◌∙◌, subst, none, some, List, [], false, arith,
}
use gnuradio4_control_plane.Errors.{Exception, Result, ok, err, what}
use gnuradio4_control_plane.Pmt.{Pmt}
use gnuradio4_control_plane.Domain.Session.{Session}
use gnuradio4_control_plane.Domain.Stream.{RuntimeStreamBinding}
use gnuradio4_control_plane.Streams.Plan.{
  derive_stream_runtime_plan, validate_stream_runtime_contract,
}
use gnuradio4_control_plane.Runtime.Allocator.{Sockets, Allocator, release_all}
use gnuradio4_control_plane.Runtime.Allocator.Ports.{count}
use gnuradio4_control_plane.Runtime.Allocator.Bindings.{count-release_all}
use gnuradio4_control_plane.Runtime.Radio.{Radio}
use gnuradio4_control_plane.Runtime.Gr4.{
  Locked, Resources, Execution, is_stopping, release_stream_bindings_locked, session_error,
}
use gnuradio4_control_plane.Runtime.Gr4.Execute.{
  ensure_runtime_environment, prepare_locked, prepare_new, prepared_or, allocate_streams,
  streams_or, allocate_and_load, load_scheduler, loaded, failed_load,
}
use gnuradio4_control_plane.Runtime.Gr4.Quiet.{
  Same, Same-trans, load_scheduler-Same, ensure_runtime_environment-Same,
}
use gnuradio4_control_plane.Runtime.Gr4.Ports.{Grows, allocate_streams-Grows}

module _ (pmt : Pmt) {O W : Type 0} (sockets : Sockets O) (radio : Radio pmt W)
    (plugin_directories : List String) where
  open radio use {Scheduler}

  abbrev pub with_ports : Allocator O → Locked O W Scheduler → Locked O W Scheduler
  with_ports a s = record s { shared = record s.shared { stream_allocator = a } }

  -- What the allocator does for the streams of a session.
  abbrev pub allocation :
      Session → Locked O W Scheduler → Result (List RuntimeStreamBinding) × Allocator O
  allocation session s =
      allocate_streams pmt sockets radio plugin_directories
        (streams_or (derive_stream_runtime_plan pmt session)) s.shared.stream_allocator

  -- The part behind the allocation: the failure is thrown on with its text, and nothing is held that was
  -- not held before.
  allocate_and_load-failed :
      (session : Session) (s : Locked O W Scheduler) (bindings : List RuntimeStreamBinding)
      (e : Exception) (text : String)
      → ((port : ℕ) → count port s.shared.stream_allocator.allocated_ports ≤ 1)
      → (allocation session s).0 ≡ ok bindings
      → (load_scheduler pmt sockets radio plugin_directories session bindings
          (with_ports (allocation session s).1 s)).0
        ≡ err e
      → what e ≡ some text
      → let m = allocate_and_load pmt sockets radio plugin_directories session s in
        (m.0 ≡ err (session_error session "prepare" text))
        × (m.1.own ≡ s.own)
        × ((port : ℕ)
            → count port m.1.shared.stream_allocator.allocated_ports
              ≡ count port s.shared.stream_allocator.allocated_ports)
  allocate_and_load-failed session s bindings e text single allocated fails says =
      let same =
        load_scheduler-Same pmt sockets radio plugin_directories session bindings
          (with_ports (allocation session s).1 s) in
      let grows =
        subst (λ r. Grows s.shared.stream_allocator r (allocation session s).1) allocated
          (allocate_streams-Grows pmt sockets radio plugin_directories
            (streams_or (derive_stream_runtime_plan pmt session)) s.shared.stream_allocator) in
      rw (allocated, allocate_and_load, fails, loaded, says, failed_load)
        (
          refl,
          same.own,
          λ port. rw same.allocator (
              ground (
                arith,
                count-release_all port bindings (allocation session s).1,
                grows.exact port,
                grows.single single port,
              )),
        )

  -- Where `prepare_locked` allocates: the environment is there, and no binding is left.
  abbrev pub entered : Locked O W Scheduler → Locked O W Scheduler
  unfolding ensure_runtime_environment release_stream_bindings_locked
  entered s =
      (release_stream_bindings_locked
        (ensure_runtime_environment pmt sockets radio plugin_directories s).1).1

  released-nothing :
      (s : Locked O W Scheduler)
      → s.own.stream_bindings ≡ []
      → Same s (release_stream_bindings_locked s).1
  unfolding release_stream_bindings_locked release_all
  released-nothing s e = record {
    own = ap (λ bindings. record s.own { stream_bindings = bindings }) (sym e);
    allocator = ap (λ bindings. release_all bindings s.shared.stream_allocator) e;
  }

  entered-Same : (s : Locked O W Scheduler) → s.own.stream_bindings ≡ [] → Same s (entered s)
  unfolding ensure_runtime_environment release_stream_bindings_locked
  entered-Same s e =
      let environment = ensure_runtime_environment-Same pmt sockets radio plugin_directories s in
      Same-trans s _ _ environment (
        released-nothing _
          (ap (λ (r : Resources Scheduler). r.stream_bindings) environment.own ∙ e))

  prepare_new-allocate :
      (session : Session) (s : Locked O W Scheduler)
      → validate_stream_runtime_contract pmt session ≡ none
      → (ensure_runtime_environment pmt sockets radio plugin_directories s).0 ≡ ok tt
      → prepare_new pmt sockets radio plugin_directories session s
        ≡ allocate_and_load pmt sockets radio plugin_directories session (entered s)
  unfolding prepare_new
  prepare_new-allocate session s valid ready = rw (valid, prepare_new, ready) refl

  prepare_locked-allocate :
      (session : Session) (s : Locked O W Scheduler)
      → is_stopping s.own.lifecycle_phase ≡ false
      → s.own.execution ≡ none
      → validate_stream_runtime_contract pmt session ≡ none
      → (ensure_runtime_environment pmt sockets radio plugin_directories s).0 ≡ ok tt
      → prepare_locked pmt sockets radio plugin_directories session s
        ≡ allocate_and_load pmt sockets radio plugin_directories session (entered s)
  unfolding prepare_locked
  prepare_locked-allocate session s phase new valid ready =
      let begun : prepare_locked pmt sockets radio plugin_directories session s
          ≡ prepared_or pmt sockets radio plugin_directories session s.own.execution s =
        rw (phase, prepare_locked) refl in
      begun
      ∙ ap (λ x. prepared_or pmt sockets radio plugin_directories session x s) new
      ∙ prepare_new-allocate session s valid ready

  -- An answer: the failure with its text, the resources as before, and so the holds on each port.
  abbrev pub Failed :
      Session
      → Locked O W Scheduler
      → String
      → Result (Execution Scheduler) × Locked O W Scheduler
      → Type 0
  Failed session s text m =
      (m.0 ≡ err (session_error session "prepare" text))
      × (m.1.own ≡ s.own)
      × ((port : ℕ)
          → count port m.1.shared.stream_allocator.allocated_ports
            ≡ count port s.shared.stream_allocator.allocated_ports)

  pub prepare_locked-Failed :
      (session : Session) (s : Locked O W Scheduler) (bindings : List RuntimeStreamBinding)
      (e : Exception) (text : String)
      → is_stopping s.own.lifecycle_phase ≡ false
      → s.own.execution ≡ none
      → s.own.stream_bindings ≡ []
      → ((port : ℕ) → count port s.shared.stream_allocator.allocated_ports ≤ 1)
      → validate_stream_runtime_contract pmt session ≡ none
      → (ensure_runtime_environment pmt sockets radio plugin_directories s).0 ≡ ok tt
      → (allocation session (entered s)).0 ≡ ok bindings
      → (load_scheduler pmt sockets radio plugin_directories session bindings
          (with_ports (allocation session (entered s)).1 (entered s))).0
        ≡ err e
      → what e ≡ some text
      → Failed session s text (prepare_locked pmt sockets radio plugin_directories session s)
  prepare_locked-Failed session s bindings e text phase new bare single valid ready allocated fails
        says =
      let same = entered-Same s bare in
      let (thrown, own, held) =
        allocate_and_load-failed session (entered s) bindings e text
          (λ port. rw same.allocator (single port)) allocated fails says in
      subst (Failed session s text) (sym (prepare_locked-allocate session s phase new valid ready))
        (
          thrown,
          own ∙ same.own,
          λ port. held port ∙ ap (λ (a : Allocator O). count port a.allocated_ports) same.allocator,
        )
