-- ===== src/Runtime/Gr4/Held.antt =====
-- The methods of src/runtime/gr4_runtime_manager.cpp under a session's mutex, and the ports that the
-- allocator holds for the session and for the others.
use gnuradio4_control_plane.Prelude.{
  ℕ, ◌+◌, String, ◌≡◌, refl, subst, inl, inr, Option, none, some, List, [], arith, Bool-cases,
  Option-cases,
}
use gnuradio4_control_plane.Errors.{Exec, Exception, Result, ok, err, continue, ◌>>◌, what}
use gnuradio4_control_plane.Pmt.{Pmt}
use gnuradio4_control_plane.Domain.Session.{Session}
use gnuradio4_control_plane.Domain.Stream.{RuntimeStreamBinding}
use gnuradio4_control_plane.Streams.Plan.{
  validate_stream_runtime_contract, derive_stream_runtime_plan,
}
use gnuradio4_control_plane.Runtime.Allocator.{Sockets, Allocator, release_all}
use gnuradio4_control_plane.Runtime.Allocator.Bindings.{
  port_count, Covers, release_all-Covers, nil-Covers,
}
use gnuradio4_control_plane.Runtime.Radio.{Radio}
use gnuradio4_control_plane.Runtime.Gr4.{
  Locked, Execution, is_stopping, release_stream_bindings_locked,
}
use gnuradio4_control_plane.Runtime.Gr4.Execute.{
  streams_or, allocate_and_load, prepare_new, prepare_locked, prepared_or, loaded, failed_load,
  load_execution, ensure_runtime_environment,
}
use gnuradio4_control_plane.Runtime.Gr4.Quiet.{
  Same, ensure_runtime_environment-Same, load_scheduler-Same,
}
use gnuradio4_control_plane.Runtime.Gr4.Ports.{gained, Grows, Grows-gained, allocate_streams-Grows}

module _ {O W S : Type 0} (rest : ℕ → ℕ) where
  -- The ports of the session's bindings and of the `rest` are held, each port once.
  abbrev pub Held : Locked O W S → Type 0
  Held s =
      Covers (λ port. port_count port s.own.stream_bindings + rest port) s.shared.stream_allocator

  pub Same-Held : (s s' : Locked O W S) → Same s s' → Held s → Held s'
  Same-Held s s' same h = rw (same.own, same.allocator) h

  pub continue-Held :
      {A B : Type 0} (r : Result A) (f : A → Exec (Locked O W S) B) (s : Locked O W S)
      → Held s
      → ((a : A) (s : Locked O W S) → Held s → Held (f a s).1)
      → Held (continue r f s).1
  continue-Held (ok a) f s h g = g a s h
  continue-Held (err e) f s h g = h

  pub release_stream_bindings_locked-Held :
      (s : Locked O W S) → Held s → Held (release_stream_bindings_locked s).1
  unfolding release_stream_bindings_locked port_count
  release_stream_bindings_locked-Held s h =
      nil-Covers rest (release_all s.own.stream_bindings s.shared.stream_allocator)
        (release_all-Covers rest s.own.stream_bindings s.shared.stream_allocator h)

module _ (pmt : Pmt) {O W : Type 0} (sockets : Sockets O) (radio : Radio pmt W)
    (plugin_directories : List String) (rest : ℕ → ℕ) where
  open radio use {Scheduler}

  -- No port of the session is held, but those of the bindings to come are.
  abbrev Awaiting : List RuntimeStreamBinding → Locked O W Scheduler → Type 0
  Awaiting bindings s =
      (s.own.stream_bindings ≡ [])
      × Covers (λ port. port_count port bindings + rest port) s.shared.stream_allocator

  Awaiting-Held :
      (bindings : List RuntimeStreamBinding) (s : Locked O W Scheduler)
      → Awaiting bindings s
      → Held rest s
  unfolding port_count
  Awaiting-Held bindings s h = rw h.0 (λ port. omega (arith, h.1.0 port), h.1.1)

  failed_load-Held :
      (session : Session) (bindings : List RuntimeStreamBinding) (e : Exception)
      (text : Option String) (s : Locked O W Scheduler)
      → Awaiting bindings s
      → Held rest (failed_load pmt sockets radio plugin_directories session bindings e text s).1
  unfolding port_count
  failed_load-Held session bindings e none s h = Awaiting-Held bindings s h
  failed_load-Held session bindings e (some text) s h = rw h.0 (
      nil-Covers rest (release_all bindings s.shared.stream_allocator)
        (release_all-Covers rest bindings s.shared.stream_allocator h.1))

  loaded-Held :
      (session : Session) (bindings : List RuntimeStreamBinding) (r : Result Scheduler)
      (s : Locked O W Scheduler)
      → Awaiting bindings s
      → Held rest (loaded pmt sockets radio plugin_directories session bindings r s).1
  loaded-Held session bindings (err e) s h = failed_load-Held session bindings e (what e) s h
  loaded-Held session bindings (ok scheduler) s h = h.1

  load_execution-Held :
      (session : Session) (bindings : List RuntimeStreamBinding) (s : Locked O W Scheduler)
      → Awaiting bindings s
      → Held rest (load_execution pmt sockets radio plugin_directories session bindings s).1
  load_execution-Held session bindings s h =
      let same = load_scheduler-Same pmt sockets radio plugin_directories session bindings s in
      loaded-Held session bindings _ _ (rw (same.own, same.allocator) h)

  -- After the release, the ports of the plan are allocated and the graph is loaded.
  allocated-Held :
      (session : Session) (r : Result (List RuntimeStreamBinding)) (a' : Allocator O)
      (s : Locked O W Scheduler)
      → s.own.stream_bindings ≡ []
      → Covers (λ port. gained port r + rest port) a'
      → Held rest
          (continue r
            (load_execution pmt sockets radio plugin_directories session)
            (record s { shared = record s.shared { stream_allocator = a' } })).1
  unfolding port_count
  allocated-Held session (ok bindings) a' s e h = load_execution-Held session bindings _ (e, h)
  allocated-Held session (err x) a' s e h = rw e h

  grown-Covers :
      (a : Allocator O) (r : Result (List RuntimeStreamBinding)) (a' : Allocator O)
      → Grows a r a'
      → Covers (λ port. port_count port [] + rest port) a
      → Covers (λ port. gained port r + rest port) a'
  unfolding port_count
  grown-Covers a r a' g h =
      (λ port. omega (arith, Grows-gained a r a' g port, h.0 port), g.single h.1)

  allocate_and_load-Held :
      (session : Session) (s : Locked O W Scheduler)
      → s.own.stream_bindings ≡ []
      → Held rest s
      → Held rest (allocate_and_load pmt sockets radio plugin_directories session s).1
  allocate_and_load-Held session s e h = allocated-Held session _ _ s e (
      grown-Covers s.shared.stream_allocator _ _
        (allocate_streams-Grows pmt sockets radio plugin_directories
          (streams_or (derive_stream_runtime_plan pmt session)) s.shared.stream_allocator)
        (subst
          (λ bindings.
            Covers (λ port. port_count port bindings + rest port) s.shared.stream_allocator)
          e h))

  -- The rest of `prepare_new`, after the contract has been validated.
  environment-Held :
      (session : Session) (s : Locked O W Scheduler)
      → Held rest s
      → Held rest
          ((do
            ensure_runtime_environment pmt sockets radio plugin_directories
            release_stream_bindings_locked
            allocate_and_load pmt sockets radio plugin_directories session)
            s).1
  unfolding release_stream_bindings_locked
  environment-Held session s h =
      continue-Held rest (ensure_runtime_environment pmt sockets radio plugin_directories s).0
        (λ done.
          release_stream_bindings_locked
          >> allocate_and_load pmt sockets radio plugin_directories session)
        _
        (Same-Held rest s _ (ensure_runtime_environment-Same pmt sockets radio plugin_directories s)
          h)
        (λ done s h.
          allocate_and_load-Held session _ refl (release_stream_bindings_locked-Held rest s h))

  prepare_new-Held :
      (session : Session) (s : Locked O W Scheduler)
      → Held rest s
      → Held rest (prepare_new pmt sockets radio plugin_directories session s).1
  unfolding prepare_new
  prepare_new-Held session s h =
      elim (Option-cases (validate_stream_runtime_contract pmt session)) [
        | inl e ↦ rw (e, prepare_new) (environment-Held session s h)
        | inr (text, e) ↦ rw (e, prepare_new) h
      ]

  prepared_or-Held :
      (session : Session) (o : Option (Execution Scheduler)) (s : Locked O W Scheduler)
      → Held rest s
      → Held rest (prepared_or pmt sockets radio plugin_directories session o s).1
  prepared_or-Held session (some execution) s h = h
  prepared_or-Held session none s h = prepare_new-Held session s h

  pub prepare_locked-Held :
      (session : Session) (s : Locked O W Scheduler)
      → Held rest s
      → Held rest (prepare_locked pmt sockets radio plugin_directories session s).1
  unfolding prepare_locked
  prepare_locked-Held session s h = elim (Bool-cases (is_stopping s.own.lifecycle_phase)) [
    | inl e ↦ rw (e, prepare_locked) h
    | inr e ↦ rw (e, prepare_locked) (prepared_or-Held session s.own.execution s h)
  ]
