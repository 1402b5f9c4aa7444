-- ===== src/Runtime/Gr4/Balance.antt =====
-- The ports that the allocator of src/runtime/gr4_runtime_manager.cpp holds, against the bindings of
-- all sessions.
use gnuradio4_control_plane.Prelude.{
  ℕ, String, ◌≡◌, refl, Option, none, some, List, arith, find, erase, IsMap, insert-IsMap,
  erase-IsMap, total, total-insert, total-erase,
}
use gnuradio4_control_plane.Errors.{Exec, Result, ok, err, pure, ◌>>◌}
use gnuradio4_control_plane.Pmt.{Pmt}
use gnuradio4_control_plane.Domain.Session.{Session}
use gnuradio4_control_plane.Runtime.Allocator.{Sockets}
use gnuradio4_control_plane.Runtime.Allocator.Bindings.{port_count, Covers}
use gnuradio4_control_plane.Runtime.Radio.{Radio}
use gnuradio4_control_plane.Runtime.Gr4.{Locked, Manager, Resources, fresh_resources}
use gnuradio4_control_plane.Runtime.Gr4.Execute.{prepare_locked, start_locked}
use gnuradio4_control_plane.Runtime.Gr4.Teardown.{stop_locked, destroy_locked}
use gnuradio4_control_plane.Runtime.Gr4.Methods.{
  locked, get_or_create_resources, resources_or, prepare, start, stop, destroy, stop_found,
  take_out, destroy_found,
}
use gnuradio4_control_plane.Runtime.Gr4.Held.{Held, continue-Held, prepare_locked-Held}
use gnuradio4_control_plane.Runtime.Gr4.Ending.{
  start_locked-Held, stop_locked-Held, destroy_locked-Held,
}

abbrev pub resources_ports : {S : Type 0} → ℕ → Resources S → ℕ
resources_ports port r = port_count port r.stream_bindings

-- Each session has one entry; every binding of every session holds its port; no port is held twice.
pub record Balanced {O W S : Type 0} (s : Manager O W S) : Type 0 where
  pub keyed : IsMap s.resources
  pub held : Covers (λ port. total (resources_ports port) s.resources) s.shared.stream_allocator

module _ (pmt : Pmt) {O W : Type 0} (sockets : Sockets O) (radio : Radio pmt W)
    (plugin_directories : List String) where
  open radio use {Scheduler}

  -- The state with which a method works under the mutex of the resources `r`.
  abbrev under : Resources Scheduler → Manager O W Scheduler → Locked O W Scheduler
  under r s = record { own = r; shared = s.shared }

  abbrev others : String → Manager O W Scheduler → ℕ → ℕ
  others id s port = total (resources_ports port) (erase id s.resources)

  found-Held :
      (id : String) (s : Manager O W Scheduler) (r : Resources Scheduler)
      → Balanced s
      → find id s.resources ≡ some r
      → Held (others id s) (under r s)
  found-Held id s r v e = (
    λ port.
        ground (arith, v.held.0 port, total-erase (resources_ports port) id s.resources v.keyed, e),
    v.held.1,
  )

  missing-Held :
      (id : String) (s : Manager O W Scheduler)
      → Balanced s
      → find id s.resources ≡ none
      → Held (others id s) (under (fresh_resources id) s)
  unfolding port_count
  missing-Held id s v e = (
    λ port.
        ground (arith, v.held.0 port, total-erase (resources_ports port) id s.resources v.keyed, e),
    v.held.1,
  )

  -- What a method leaves is put back under its session.
  locked-Balanced :
      {A : Type 0} (id : String) (s : Manager O W Scheduler) (r : Resources Scheduler)
      (m : Exec (Locked O W Scheduler) A)
      → Balanced s
      → Held (others id s) (m (under r s)).1
      → Balanced (locked pmt sockets radio plugin_directories id r m s).1
  locked-Balanced id s r m v h = record {
    keyed = insert-IsMap id _ s.resources v.keyed;
    held = (
      λ port. ground (
        arith,
        h.0 port,
        total-erase (resources_ports port) id s.resources v.keyed,
        total-insert (resources_ports port) id (m (under r s)).1.own s.resources,
      ),
      h.1,
    );
  }

  resources-Held :
      (id : String) (s : Manager O W Scheduler) (o : Option (Resources Scheduler))
      → Balanced s
      → find id s.resources ≡ o
      → Held (others id s) (under (resources_or pmt sockets radio plugin_directories id o) s)
  resources-Held id s none v e = missing-Held id s v e
  resources-Held id s (some r) v e = found-Held id s r v e

  found-Balanced :
      (session : Session) (s : Manager O W Scheduler) (o : Option (Resources Scheduler))
      → Balanced s
      → find session.id s.resources ≡ o
      → Balanced (stop_found pmt sockets radio plugin_directories session o s).1
  found-Balanced session s none v e = v
  found-Balanced session s (some r) v e =
      locked-Balanced session.id s r (stop_locked pmt sockets radio plugin_directories session) v (
        stop_locked-Held pmt sockets radio plugin_directories (others session.id s) session
          (under r s) (found-Held session.id s r v e))

  take_out-Balanced :
      (id : String) (r : Result (Unit {0})) (s : Manager O W Scheduler)
      → Balanced s
      → Balanced (take_out pmt sockets radio plugin_directories id r s).1
  take_out-Balanced id (err e) s v = v
  take_out-Balanced id (ok done) s v = record {
    keyed = erase-IsMap id s.resources v.keyed;
    held = (
      λ port.
          ground (arith, v.held.0 port, total-erase (resources_ports port) id s.resources v.keyed),
      v.held.1,
    );
  }

  destroy_found-Balanced :
      (session : Session) (s : Manager O W Scheduler) (o : Option (Resources Scheduler))
      → Balanced s
      → find session.id s.resources ≡ o
      → Balanced (destroy_found pmt sockets radio plugin_directories session o s).1
  destroy_found-Balanced session s none v e = v
  destroy_found-Balanced session s (some r) v e = take_out-Balanced session.id _ _ (
      locked-Balanced session.id s r (destroy_locked pmt sockets radio plugin_directories session) v
        (destroy_locked-Held pmt sockets radio plugin_directories (others session.id s) session
          (under r s) (found-Held session.id s r v e)))

  prepare-Balanced :
      (session : Session) (s : Manager O W Scheduler)
      → Balanced s
      → Balanced (prepare pmt sockets radio plugin_directories session s).1
  unfolding prepare get_or_create_resources
  prepare-Balanced session s v =
      let r = get_or_create_resources pmt sockets radio plugin_directories session.id s in
      let prepared = prepare_locked pmt sockets radio plugin_directories session in
      locked-Balanced session.id s r (do prepared; pure tt) v
        (continue-Held (others session.id s) (prepared (under r s)).0 (λ execution. pure tt)
          (prepared (under r s)).1
          (prepare_locked-Held pmt sockets radio plugin_directories (others session.id s) session
            (under r s) (resources-Held session.id s (find session.id s.resources) v refl))
          (λ execution s h. h))

  start-Balanced :
      (session : Session) (s : Manager O W Scheduler)
      → Balanced s
      → Balanced (start pmt sockets radio plugin_directories session s).1
  unfolding start get_or_create_resources
  start-Balanced session s v =
      let r = get_or_create_resources pmt sockets radio plugin_directories session.id s in
      locked-Balanced session.id s r (start_locked pmt sockets radio plugin_directories session) v (
        start_locked-Held pmt sockets radio plugin_directories (others session.id s) session
          (under r s) (resources-Held session.id s (find session.id s.resources) v refl))

  -- If every binding of every session holds its port and no port is held twice, then this is so after
  -- `prepare`, `start`, `stop` and `destroy`, with whatever they return or throw.
  pub lifecycle-Balanced :
      (session : Session) (s : Manager O W Scheduler)
      → Balanced s
      → Balanced (prepare pmt sockets radio plugin_directories session s).1
        × Balanced (start pmt sockets radio plugin_directories session s).1
        × Balanced (stop pmt sockets radio plugin_directories session s).1
        × Balanced (destroy pmt sockets radio plugin_directories session s).1
  unfolding stop destroy
  lifecycle-Balanced session s v = (
    prepare-Balanced session s v,
    start-Balanced session s v,
    found-Balanced session s (find session.id s.resources) v refl,
    destroy_found-Balanced session s (find session.id s.resources) v refl,
  )
