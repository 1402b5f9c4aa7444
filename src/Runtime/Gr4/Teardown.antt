-- ===== src/Runtime/Gr4/Teardown.antt =====
-- `stop_locked` of `Gr4RuntimeManager` (src/runtime/gr4_runtime_manager.cpp), and what `destroy` does
-- under the mutex.
use gnuradio4_control_plane.Prelude.{
  String, true, false, Option, none, some, List, if◌then◌else◌, ◌<>◌,
}
use gnuradio4_control_plane.Errors.{Exec, Exception, Result, ok, err, pure, throw, ◌>>◌, what}
use gnuradio4_control_plane.Pmt.{Pmt}
use gnuradio4_control_plane.Domain.Session.{Session}
use gnuradio4_control_plane.Runtime.Allocator.{Sockets}
use gnuradio4_control_plane.Runtime.Radio.{Radio}
use gnuradio4_control_plane.Runtime.Gr4.{
  idle, stopping, failed, is_stopping, Execution, Resources, session_error, set_own,
  release_stream_bindings_locked, on_radio,
}
use gnuradio4_control_plane.Runtime.Gr4.Execute.{State}

module _ (pmt : Pmt) {O W : Type 0} (sockets : Sockets O) (radio : Radio pmt W)
    (plugin_directories : List String) where
  open radio use {Scheduler}

  -- The scheduler is stopped, if it runs; a `std::exception` leaves the resources failed, with their
  -- ports and their execution.
  abbrev pub stop_failed :
      Session
      → Exception
      → Option String
      → Exec (State pmt sockets radio plugin_directories) (Unit {0})
  stop_failed session e none = throw e
  stop_failed session e (some text) = do
    set_own (λ own. record own {
      lifecycle_phase = failed;
      teardown_error = some ("failed to stop scheduler: " <> text);
    })
    throw (session_error session "stop" ("failed to stop scheduler: " <> text))

  abbrev pub or_stop_failed :
      Session → Result (Unit {0}) → Exec (State pmt sockets radio plugin_directories) (Unit {0})
  or_stop_failed session (ok done) = pure tt
  or_stop_failed session (err e) = stop_failed session e (what e)

  abbrev pub stop_scheduler :
      Session → Execution Scheduler → Exec (State pmt sockets radio plugin_directories) (Unit {0})
  stop_scheduler session execution s =
      let (result, next) = on_radio (radio.stop execution.scheduler) s in
      if execution.running then or_stop_failed session result next else (ok tt, s)

  abbrev pub or_async :
      Session → Option String → Exec (State pmt sockets radio plugin_directories) (Unit {0})
  or_async session none =
      set_own (λ own. record own { lifecycle_phase = idle; teardown_error = none })
  or_async session (some text) = do
    set_own (λ own. record own { lifecycle_phase = failed; teardown_error = some text })
    throw (session_error session "execution" text)

  abbrev pub finish_teardown :
      Session → Exec (State pmt sockets radio plugin_directories) (Unit {0})
  finish_teardown session s = or_async session s.own.async_error s

  abbrev pub tear_down : Session → Exec (State pmt sockets radio plugin_directories) (Unit {0})
  tear_down session = do
    release_stream_bindings_locked
    set_own (λ own. record own { execution = none; teardown_complete = true })
    finish_teardown session

  abbrev pub begin_stop : Resources Scheduler → Resources Scheduler
  begin_stop own = record own {
    lifecycle_phase = stopping;
    teardown_complete = false;
    teardown_error = none;
  }

  abbrev pub stop_execution :
      Session → Execution Scheduler → Exec (State pmt sockets radio plugin_directories) (Unit {0})
  stop_execution session execution = do
    set_own begin_stop
    stop_scheduler session execution
    tear_down session

  abbrev pub settle : Exec (State pmt sockets radio plugin_directories) (Unit {0})
  settle = do
    release_stream_bindings_locked
    set_own (λ own. record own {
      lifecycle_phase = idle;
      teardown_complete = true;
      teardown_error = none;
    })

  abbrev pub stop_or_settle :
      Session
      → Option (Execution Scheduler)
      → Exec (State pmt sockets radio plugin_directories) (Unit {0})
  stop_or_settle session none s = settle s
  stop_or_settle session (some execution) s =
      if is_stopping s.own.lifecycle_phase
      then (err (session_error session "stop" "session runtime stop already in progress"), s)
      else stop_execution session execution s

  unfoldable pub stop_locked :
      Session → Exec (State pmt sockets radio plugin_directories) (Unit {0})
  unfolding release_stream_bindings_locked session_error
  stop_locked session s = stop_or_settle session s.own.execution s

  -- What `destroy` does before it takes the entry out.
  unfoldable pub destroy_locked :
      Session → Exec (State pmt sockets radio plugin_directories) (Unit {0})
  unfolding stop_locked release_stream_bindings_locked
  destroy_locked session = do
    stop_locked session
    set_own (λ own. record own { execution = none })
    settle
