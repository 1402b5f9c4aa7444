-- ===== src/Runtime/Gr4/Removed.antt =====
-- A removal that succeeds, in src/runtime/gr4_runtime_manager.cpp.
use gnuradio4_control_plane.Prelude.{
  ℕ, String, ◌≡◌, ◌≢◌, refl, inl, inr, none, some, List, arith, if◌then◌else◌, nat_eq, find, insert,
  find-insert, find-erase, eq_iff,
}
use gnuradio4_control_plane.Errors.{ok, Result-cases}
use gnuradio4_control_plane.Pmt.{Pmt}
use gnuradio4_control_plane.Domain.Session.{Session}
use gnuradio4_control_plane.Runtime.Allocator.{Sockets, release_all}
use gnuradio4_control_plane.Runtime.Allocator.Ports.{count}
use gnuradio4_control_plane.Runtime.Allocator.Bindings.{port_count}
use gnuradio4_control_plane.Runtime.Radio.{Radio}
use gnuradio4_control_plane.Runtime.Gr4.{Locked, Manager, Resources, release_stream_bindings_locked}
use gnuradio4_control_plane.Runtime.Gr4.Teardown.{stop_locked, settle, destroy_locked}
use gnuradio4_control_plane.Runtime.Gr4.Methods.{destroy, destroy_found, take_out}
use gnuradio4_control_plane.Runtime.Gr4.Stopped.{Ended, stop_locked-Ended, under}

module _ (pmt : Pmt) {O W : Type 0} (sockets : Sockets O) (radio : Radio pmt W)
    (plugin_directories : List String) where
  open radio use {Scheduler}

  -- After a stop, the second release finds nothing.
  settled-Ended :
      (s s' : Locked O W Scheduler)
      → Ended s s'
      → Ended s (settle pmt sockets radio plugin_directories s').1
  unfolding release_stream_bindings_locked release_all
  settled-Ended s s' h = record {
    execution = h.execution;
    phase = refl;
    bindings = refl;
    ports = λ port. rw h.bindings (h.ports port);
  }

  destroy_locked-Ended :
      (session : Session) (s : Locked O W Scheduler)
      → (destroy_locked pmt sockets radio plugin_directories session s).0 ≡ ok tt
      → Ended s (destroy_locked pmt sockets radio plugin_directories session s).1
  unfolding destroy_locked
  destroy_locked-Ended session s done =
      let m = stop_locked pmt sockets radio plugin_directories session s in
      elim (Result-cases m.0) [
        | inl (u, e) ↦
            let h = stop_locked-Ended pmt sockets radio plugin_directories session s e in
            rw (e, destroy_locked)
              (settled-Ended s (record m.1 { own = record m.1.own { execution = none } })
                (record {
                  execution = refl;
                  phase = h.phase;
                  bindings = h.bindings;
                  ports = h.ports;
                }))
        | inr (x, e) ↦ absurd (ground (arith, rw (e, destroy_locked) at done))
      ]

  -- If a session has resources and `destroy` returns, then the session has no resources any more, the
  -- ports of its bindings are free, every other port is held as before, and the resources of every
  -- other session are as before.
  pub destroy-ended :
      (session : Session) (s : Manager O W Scheduler) (r : Resources Scheduler)
      → find session.id s.resources ≡ some r
      → (destroy pmt sockets radio plugin_directories session s).0 ≡ ok tt
      → let s' = (destroy pmt sockets radio plugin_directories session s).1 in
        (find session.id s'.resources ≡ none)
        × ((id : String) → session.id ≢ id → find id s'.resources ≡ find id s.resources)
        × ((port : ℕ)
            → count port s'.shared.stream_allocator.allocated_ports ≡ (
                if nat_eq (port_count port r.stream_bindings) 0
                then count port s.shared.stream_allocator.allocated_ports
                else 0))
  unfolding destroy
  destroy-ended session s r found done =
      let m =
        destroy_locked pmt sockets radio plugin_directories session
          (under pmt sockets radio plugin_directories r s) in
      elim (Result-cases m.0) [
        | inl (u, e) ↦
            let h =
              destroy_locked-Ended session (under pmt sockets radio plugin_directories r s) e in
            rw (found, destroy_found, e, take_out)
              (
                ground (
                  arith,
                  find-erase session.id session.id (insert session.id m.1.own s.resources),
                  eq_iff session.id session.id,
                ),
                (λ id differs. ground (
                  arith,
                  find-erase session.id id (insert session.id m.1.own s.resources),
                  find-insert session.id id m.1.own s.resources,
                  eq_iff session.id id,
                )),
                h.ports,
              )
        | inr (x, e) ↦ absurd (ground (arith, rw (found, destroy_found, e, take_out) at done))
      ]
