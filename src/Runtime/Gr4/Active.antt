-- ===== src/Runtime/Gr4/Active.antt =====
-- The streams that a session has while it runs, in src/runtime/gr4_runtime_manager.cpp.
use gnuradio4_control_plane.Prelude.{
  String, ◌≡◌, refl, ap, ◌∙◌, inl, inr, none, some, List, arith, map, find, find-insert_same,
}
use gnuradio4_control_plane.Errors.{Result, ok, err, Result-cases, continue}
use gnuradio4_control_plane.Pmt.{Pmt}
use gnuradio4_control_plane.Domain.Session.{Session}
use gnuradio4_control_plane.Domain.Stream.{RuntimeStreamBindingPlan}
use gnuradio4_control_plane.Streams.Plan.{derive_stream_runtime_plan}
use gnuradio4_control_plane.Runtime.Allocator.{Sockets}
use gnuradio4_control_plane.Runtime.Radio.{Radio}
use gnuradio4_control_plane.Runtime.Gr4.{Locked, Manager, Execution, fresh_resources}
use gnuradio4_control_plane.Runtime.Gr4.Execute.{
  streams_or, prepare_new, prepare_locked, start_locked, start_prepared, run_execution,
}
use gnuradio4_control_plane.Runtime.Gr4.Methods.{
  start, get_or_create_resources, active_stream_plan, active_plan,
}
use gnuradio4_control_plane.Runtime.Gr4.Started.{
  ready, announced, plans_of, plan_of-announced, Loaded, Started, plans_for, prepare_new-Loaded,
}

module _ (pmt : Pmt) {O W : Type 0} (sockets : Sockets O) (radio : Radio pmt W)
    (plugin_directories : List String) where
  open radio use {Scheduler}

  run_execution-Started :
      (plans : List RuntimeStreamBindingPlan) (execution : Execution Scheduler)
      (s : Locked O W Scheduler)
      → plans_of s.own.stream_bindings ≡ map ready plans
      → let m = run_execution pmt sockets radio plugin_directories execution s in
        Started plans m.0 m.1
  run_execution-Started plans execution s h =
      elim (Result-cases (radio.start execution.scheduler s.shared.radio).0) [
        | inl (u, e) ↦ rw (e, run_execution) (refl, h)
        | inr (x, e) ↦ rw (e, run_execution) tt
      ]

  start_prepared-Started :
      (plans : List RuntimeStreamBindingPlan) (session : Session) (execution : Execution Scheduler)
      (s : Locked O W Scheduler)
      → Loaded plans (ok execution) s
      → let m = start_prepared pmt sockets radio plugin_directories session execution s in
        Started plans m.0 m.1
  start_prepared-Started plans session execution s h =
      rw (h.0, start_prepared, h.1) (run_execution-Started plans execution s h.2)

  continue-Started :
      (plans : List RuntimeStreamBindingPlan) (session : Session) (r : Result (Execution Scheduler))
      (s : Locked O W Scheduler)
      → Loaded plans r s
      → let m = continue r (start_prepared pmt sockets radio plugin_directories session) s in
        Started plans m.0 m.1
  continue-Started plans session (ok execution) s h =
      start_prepared-Started plans session execution s h
  continue-Started plans session (err e) s h = tt

  -- The state in which `start` takes a session that has no resources.
  abbrev fresh : String → Manager O W Scheduler → Locked O W Scheduler
  fresh id s = record { own = fresh_resources id; shared = s.shared }

  start_locked-Started :
      (session : Session) (s : Manager O W Scheduler)
      → let m = start_locked pmt sockets radio plugin_directories session (fresh session.id s) in
        Started (plans_for pmt sockets radio plugin_directories session) m.0 m.1
  unfolding start_locked prepare_locked
  start_locked-Started session s =
      let m = prepare_new pmt sockets radio plugin_directories session (fresh session.id s) in
      continue-Started (plans_for pmt sockets radio plugin_directories session) session m.0 m.1
        (prepare_new-Loaded pmt sockets radio plugin_directories session (fresh session.id s))

  Started-plan :
      (plans : List RuntimeStreamBindingPlan) (r : Result (Unit {0})) (s : Locked O W Scheduler)
      → Started plans r s
      → r ≡ ok tt
      → active_plan (some s.own) ≡ announced plans
  Started-plan plans (ok done) s h e = rw h.0 (plan_of-announced s.own.stream_bindings plans h.1)
  Started-plan plans (err x) s h e = absurd (ground arith)

  -- If a session has no resources and `start` returns, then the active plan of the session is the plan
  -- that is derived from the session, with each stream ready, and none if that plan has no stream.
  pub active_stream_plan-start :
      (session : Session) (s : Manager O W Scheduler)
      → find session.id s.resources ≡ none
      → (start pmt sockets radio plugin_directories session s).0 ≡ ok tt
      → (active_stream_plan pmt sockets radio plugin_directories session
          (start pmt sockets radio plugin_directories session s).1).0
        ≡ ok (announced (streams_or (derive_stream_runtime_plan pmt session)))
  unfolding start get_or_create_resources active_stream_plan
  active_stream_plan-start session s missing done =
      let m = start_locked pmt sockets radio plugin_directories session (fresh session.id s) in
      let plan =
        Started-plan (plans_for pmt sockets radio plugin_directories session) m.0 m.1
          (start_locked-Started session s) (rw missing at done) in
      rw missing (
        ap (λ o. ok (active_plan o)) (find-insert_same session.id m.1.own s.resources)
        ∙ ap (λ p. ok p) plan)
