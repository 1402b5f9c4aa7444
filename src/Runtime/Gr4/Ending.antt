-- ===== src/Runtime/Gr4/Ending.antt =====
-- The start, the stop and the removal of a session in src/runtime/gr4_runtime_manager.cpp, under the
-- session's mutex, and the ports that the allocator holds.
use gnuradio4_control_plane.Prelude.{
  ℕ, String, inl, inr, Option, none, some, List, ◌&&◌, Bool-cases,
}
use gnuradio4_control_plane.Errors.{Exception, Result, ok, err, ◌>>◌, what}
use gnuradio4_control_plane.Pmt.{Pmt}
use gnuradio4_control_plane.Domain.Session.{Session}
use gnuradio4_control_plane.Runtime.Allocator.{Sockets}
use gnuradio4_control_plane.Runtime.Radio.{Radio}
use gnuradio4_control_plane.Runtime.Gr4.{
  Locked, Execution, is_stopping, is_running, release_stream_bindings_locked, on_radio, set_own,
}
use gnuradio4_control_plane.Runtime.Gr4.Execute.{
  prepare_locked, start_locked, start_prepared, run_execution,
}
use gnuradio4_control_plane.Runtime.Gr4.Teardown.{
  stop_locked, stop_or_settle, begin_stop, tear_down, stop_execution, stop_scheduler,
  or_stop_failed, stop_failed, or_async, settle, destroy_locked,
}
use gnuradio4_control_plane.Runtime.Gr4.Held.{
  Held, continue-Held, release_stream_bindings_locked-Held, prepare_locked-Held,
}

module _ (pmt : Pmt) {O W : Type 0} (sockets : Sockets O) (radio : Radio pmt W)
    (plugin_directories : List String) (rest : ℕ → ℕ) where
  open radio use {Scheduler}

  run_execution-Held :
      (execution : Execution Scheduler) (s : Locked O W Scheduler)
      → Held rest s
      → Held rest (run_execution pmt sockets radio plugin_directories execution s).1
  run_execution-Held execution s h =
      continue-Held rest (radio.start execution.scheduler s.shared.radio).0 _ _ h (λ done s h. h)

  start_prepared-Held :
      (session : Session) (execution : Execution Scheduler) (s : Locked O W Scheduler)
      → Held rest s
      → Held rest (start_prepared pmt sockets radio plugin_directories session execution s).1
  start_prepared-Held session execution s h =
      elim (Bool-cases (is_stopping s.own.lifecycle_phase)) [
        | inl e ↦ rw (e, start_prepared) h
        | inr e ↦ elim (Bool-cases (execution.running && is_running s.own.lifecycle_phase)) [
          | inl f ↦ rw (e, start_prepared, f) h
          | inr f ↦ rw (e, start_prepared, f) (run_execution-Held execution s h)
        ]
      ]

  pub start_locked-Held :
      (session : Session) (s : Locked O W Scheduler)
      → Held rest s
      → Held rest (start_locked pmt sockets radio plugin_directories session s).1
  unfolding start_locked
  start_locked-Held session s h =
      continue-Held rest (prepare_locked pmt sockets radio plugin_directories session s).0
        (start_prepared pmt sockets radio plugin_directories session) _
        (prepare_locked-Held pmt sockets radio plugin_directories rest session s h)
        (start_prepared-Held session)

  settle-Held :
      (s : Locked O W Scheduler)
      → Held rest s
      → Held rest (settle pmt sockets radio plugin_directories s).1
  unfolding release_stream_bindings_locked
  settle-Held s h = release_stream_bindings_locked-Held rest s h

  or_async-Held :
      (session : Session) (o : Option String) (s : Locked O W Scheduler)
      → Held rest s
      → Held rest (or_async pmt sockets radio plugin_directories session o s).1
  or_async-Held session none s h = h
  or_async-Held session (some text) s h = h

  tear_down-Held :
      (session : Session) (s : Locked O W Scheduler)
      → Held rest s
      → Held rest (tear_down pmt sockets radio plugin_directories session s).1
  unfolding release_stream_bindings_locked
  tear_down-Held session s h =
      or_async-Held session s.own.async_error _ (release_stream_bindings_locked-Held rest s h)

  stop_failed-Held :
      (session : Session) (e : Exception) (o : Option String) (s : Locked O W Scheduler)
      → Held rest s
      → Held rest (stop_failed pmt sockets radio plugin_directories session e o s).1
  stop_failed-Held session e none s h = h
  stop_failed-Held session e (some text) s h = h

  or_stop_failed-Held :
      (session : Session) (r : Result (Unit {0})) (s : Locked O W Scheduler)
      → Held rest s
      → Held rest (or_stop_failed pmt sockets radio plugin_directories session r s).1
  or_stop_failed-Held session (ok done) s h = h
  or_stop_failed-Held session (err e) s h = stop_failed-Held session e (what e) s h

  stop_scheduler-Held :
      (session : Session) (execution : Execution Scheduler) (s : Locked O W Scheduler)
      → Held rest s
      → Held rest (stop_scheduler pmt sockets radio plugin_directories session execution s).1
  stop_scheduler-Held session execution s h = elim (Bool-cases execution.running) [
    | inl e ↦
        rw (e, stop_scheduler)
          (or_stop_failed-Held session (on_radio (radio.stop execution.scheduler) s).0 _ h)
    | inr e ↦ rw (e, stop_scheduler) h
  ]

  stop_execution-Held :
      (session : Session) (execution : Execution Scheduler) (s : Locked O W Scheduler)
      → Held rest s
      → Held rest (stop_execution pmt sockets radio plugin_directories session execution s).1
  stop_execution-Held session execution s h =
      let begun : Locked O W Scheduler = record s {
        own = begin_stop pmt sockets radio plugin_directories s.own;
      } in
      continue-Held rest
        (stop_scheduler pmt sockets radio plugin_directories session execution begun).0
        (λ done. tear_down pmt sockets radio plugin_directories session) _
        (stop_scheduler-Held session execution begun h) (λ done s h. tear_down-Held session s h)

  stop_or_settle-Held :
      (session : Session) (o : Option (Execution Scheduler)) (s : Locked O W Scheduler)
      → Held rest s
      → Held rest (stop_or_settle pmt sockets radio plugin_directories session o s).1
  stop_or_settle-Held session none s h = settle-Held s h
  stop_or_settle-Held session (some execution) s h =
      elim (Bool-cases (is_stopping s.own.lifecycle_phase)) [
        | inl e ↦ rw (e, stop_or_settle) h
        | inr e ↦ rw (e, stop_or_settle) (stop_execution-Held session execution s h)
      ]

  pub stop_locked-Held :
      (session : Session) (s : Locked O W Scheduler)
      → Held rest s
      → Held rest (stop_locked pmt sockets radio plugin_directories session s).1
  unfolding stop_locked
  stop_locked-Held session s h = stop_or_settle-Held session s.own.execution s h

  pub destroy_locked-Held :
      (session : Session) (s : Locked O W Scheduler)
      → Held rest s
      → Held rest (destroy_locked pmt sockets radio plugin_directories session s).1
  unfolding destroy_locked
  destroy_locked-Held session s h =
      continue-Held rest (stop_locked pmt sockets radio plugin_directories session s).0
        (λ done.
          set_own (λ own. record own { execution = none })
          >> settle pmt sockets radio plugin_directories)
        _ (stop_locked-Held session s h)
        (λ done s h. settle-Held (record s { own = record s.own { execution = none } }) h)
