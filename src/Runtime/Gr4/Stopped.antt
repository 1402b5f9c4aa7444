-- ===== src/Runtime/Gr4/Stopped.antt =====
-- The end of a stop that succeeds, in src/runtime/gr4_runtime_manager.cpp.
use gnuradio4_control_plane.Prelude.{
  ℕ, String, ◌≡◌, ◌≢◌, refl, ◌∙◌, inl, inr, Option, none, some, List, [], arith, if◌then◌else◌,
  nat_eq, Bool-cases, find, find-insert_same,
}
use gnuradio4_control_plane.Errors.{Exception, Result, ok, err, Result-cases, what}
use gnuradio4_control_plane.Pmt.{Pmt}
use gnuradio4_control_plane.Domain.Session.{Session}
use gnuradio4_control_plane.Runtime.Allocator.{Sockets}
use gnuradio4_control_plane.Runtime.Allocator.Ports.{count}
use gnuradio4_control_plane.Runtime.Allocator.Bindings.{port_count, count-release_all}
use gnuradio4_control_plane.Runtime.Radio.{Radio}
use gnuradio4_control_plane.Runtime.Gr4.{
  Locked, Manager, Execution, Resources, idle, is_stopping, release_stream_bindings_locked,
  on_radio,
}
use gnuradio4_control_plane.Runtime.Gr4.Teardown.{
  begin_stop, tear_down, stop_locked, stop_or_settle, stop_execution, stop_scheduler,
  or_stop_failed, stop_failed, or_async, settle,
}
use gnuradio4_control_plane.Runtime.Gr4.Methods.{stop, stop_found}
use gnuradio4_control_plane.Runtime.Gr4.Quiet.{Same, same, on_radio-Same}

-- The session has neither execution nor bindings, and the ports of its bindings are free.
pub record Ended {O W S : Type 0} (s s' : Locked O W S) : Type 0 where
  pub execution : s'.own.execution ≡ none
  pub phase : s'.own.lifecycle_phase ≡ idle
  pub bindings : s'.own.stream_bindings ≡ []
  pub ports :
      (port : ℕ)
      → count port s'.shared.stream_allocator.allocated_ports ≡ (
          if nat_eq (port_count port s.own.stream_bindings) 0
          then count port s.shared.stream_allocator.allocated_ports
          else 0)

pub Ended-from :
    {O W S : Type 0} (s s' s'' : Locked O W S)
    → s'.own.stream_bindings ≡ s.own.stream_bindings
    → s'.shared.stream_allocator ≡ s.shared.stream_allocator
    → Ended s' s''
    → Ended s s''
Ended-from s s' s'' same_bindings same_ports h = record {
  execution = h.execution;
  phase = h.phase;
  bindings = h.bindings;
  ports = λ port. h.ports port ∙ rw (same_bindings, same_ports) refl;
}

module _ (pmt : Pmt) {O W : Type 0} (sockets : Sockets O) (radio : Radio pmt W)
    (plugin_directories : List String) where
  open radio use {Scheduler}

  pub settle-Ended :
      (s : Locked O W Scheduler)
      → s.own.execution ≡ none
      → Ended s (settle pmt sockets radio plugin_directories s).1
  unfolding release_stream_bindings_locked
  settle-Ended s e = record {
    execution = e;
    phase = refl;
    bindings = refl;
    ports = λ port. count-release_all port s.own.stream_bindings s.shared.stream_allocator;
  }

  or_async-Ended :
      (session : Session) (o : Option String) (s s' : Locked O W Scheduler)
      → (or_async pmt sockets radio plugin_directories session o s').0 ≡ ok tt
      → Ended s (record s' { own = record s'.own { lifecycle_phase = idle } })
      → Ended s (or_async pmt sockets radio plugin_directories session o s').1
  or_async-Ended session none s s' done h = record {
    execution = h.execution;
    phase = refl;
    bindings = h.bindings;
    ports = h.ports;
  }
  or_async-Ended session (some text) s s' done h = absurd (ground arith)

  tear_down-Ended :
      (session : Session) (s : Locked O W Scheduler)
      → (tear_down pmt sockets radio plugin_directories session s).0 ≡ ok tt
      → Ended s (tear_down pmt sockets radio plugin_directories session s).1
  unfolding release_stream_bindings_locked
  tear_down-Ended session s done = or_async-Ended session s.own.async_error s _ done (record {
    execution = refl;
    phase = refl;
    bindings = refl;
    ports = λ port. count-release_all port s.own.stream_bindings s.shared.stream_allocator;
  })

  stop_failed-refuses :
      (session : Session) (e : Exception) (o : Option String) (s : Locked O W Scheduler)
      → (stop_failed pmt sockets radio plugin_directories session e o s).0 ≢ ok tt
  stop_failed-refuses session e none s done = ground arith
  stop_failed-refuses session e (some text) s done = ground arith

  or_stop_failed-Same :
      (session : Session) (r : Result (Unit {0})) (s s' : Locked O W Scheduler)
      → (or_stop_failed pmt sockets radio plugin_directories session r s').0 ≡ ok tt
      → Same s s'
      → Same s (or_stop_failed pmt sockets radio plugin_directories session r s').1
  or_stop_failed-Same session (ok done) s s' e h = h
  or_stop_failed-Same session (err x) s s' e h =
      absurd (stop_failed-refuses session x (what x) s' e)

  -- A stop of the scheduler that succeeds has left the resources and the ports alone.
  stop_scheduler-Same :
      (session : Session) (execution : Execution Scheduler) (s : Locked O W Scheduler)
      → (stop_scheduler pmt sockets radio plugin_directories session execution s).0 ≡ ok tt
      → Same s (stop_scheduler pmt sockets radio plugin_directories session execution s).1
  stop_scheduler-Same session execution s done =
      let m = on_radio (radio.stop execution.scheduler) s in
      elim (Bool-cases execution.running) [
        | inl e ↦
            rw (e, stop_scheduler)
              (or_stop_failed-Same session m.0 s m.1 (rw (e, stop_scheduler) at done)
                (on_radio-Same (radio.stop execution.scheduler) s))
        | inr e ↦ rw (e, stop_scheduler) (same s)
      ]

  stop_execution-Ended :
      (session : Session) (execution : Execution Scheduler) (s : Locked O W Scheduler)
      → (stop_execution pmt sockets radio plugin_directories session execution s).0 ≡ ok tt
      → Ended s (stop_execution pmt sockets radio plugin_directories session execution s).1
  stop_execution-Ended session execution s done =
      let begun : Locked O W Scheduler = record s {
        own = begin_stop pmt sockets radio plugin_directories s.own;
      } in
      let m = stop_scheduler pmt sockets radio plugin_directories session execution begun in
      elim (Result-cases m.0) [
        | inl (u, e) ↦
            let h = stop_scheduler-Same session execution begun e in
            let ended = tear_down-Ended session m.1 (rw (e, stop_execution) at done) in
            rw (e, stop_execution) (Ended-from s m.1 _ (rw h.own refl) h.allocator ended)
        | inr (x, e) ↦ absurd (ground (arith, rw (e, stop_execution) at done))
      ]

  stop_or_settle-Ended :
      (session : Session) (o : Option (Execution Scheduler)) (s : Locked O W Scheduler)
      → s.own.execution ≡ o
      → (stop_or_settle pmt sockets radio plugin_directories session o s).0 ≡ ok tt
      → Ended s (stop_or_settle pmt sockets radio plugin_directories session o s).1
  stop_or_settle-Ended session none s e done = settle-Ended s e
  stop_or_settle-Ended session (some execution) s e done =
      elim (Bool-cases (is_stopping s.own.lifecycle_phase)) [
        | inl f ↦ absurd (ground (arith, rw (f, stop_or_settle) at done))
        | inr f ↦
            rw (f, stop_or_settle)
              (stop_execution-Ended session execution s (rw (f, stop_or_settle) at done))
      ]

  pub stop_locked-Ended :
      (session : Session) (s : Locked O W Scheduler)
      → (stop_locked pmt sockets radio plugin_directories session s).0 ≡ ok tt
      → Ended s (stop_locked pmt sockets radio plugin_directories session s).1
  unfolding stop_locked
  stop_locked-Ended session s done = stop_or_settle-Ended session s.own.execution s refl done

  abbrev pub under : Resources Scheduler → Manager O W Scheduler → Locked O W Scheduler
  under r s = record { own = r; shared = s.shared }

  -- If a session has resources and `stop` returns, then the session has neither execution nor
  -- bindings and is idle, the ports of its bindings are free, and every other port is held as before.
  pub stop-Ended :
      (session : Session) (s : Manager O W Scheduler) (r : Resources Scheduler)
      → find session.id s.resources ≡ some r
      → (stop pmt sockets radio plugin_directories session s).0 ≡ ok tt
      → (r' : Resources Scheduler) × (find session.id
            (stop pmt sockets radio plugin_directories session s).1.resources
          ≡ some r')
        × Ended (under r s) (under r' (stop pmt sockets radio plugin_directories session s).1)
  unfolding stop
  stop-Ended session s r found done =
      let m = stop_locked pmt sockets radio plugin_directories session (under r s) in
      rw (found, stop_found)
        (
          m.1.own,
          find-insert_same session.id m.1.own s.resources,
          stop_locked-Ended session (under r s) (rw (found, stop_found) at done),
        )
