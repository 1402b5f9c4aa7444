-- ===== src/Runtime/Gr4/Destructor.antt =====
-- The destructor of `Gr4RuntimeManager` (src/runtime/gr4_runtime_manager.cpp). The resources are
-- stopped in the order of the association list; the source's `std::unordered_map` leaves it open.
use gnuradio4_control_plane.Prelude.{String, none, List, [], ◌∷◌, Assoc}
use gnuradio4_control_plane.Pmt.{Pmt}
use gnuradio4_control_plane.Domain.Session.{Session, stopped}
use gnuradio4_control_plane.Runtime.Allocator.{Sockets}
use gnuradio4_control_plane.Runtime.Radio.{Radio}
use gnuradio4_control_plane.Runtime.Gr4.{Resources, Shared, Manager}
use gnuradio4_control_plane.Runtime.Gr4.Teardown.{stop_locked}

-- `domain::Session session; session.id = …`.
abbrev only_id : String → Session
only_id id = record {
  id = id;
  name = "";
  grc_content = "";
  scheduler_alias = none;
  state = stopped;
  last_error = none;
  created_at = 0;
  updated_at = 0;
}

module _ (pmt : Pmt) {O W : Type 0} (sockets : Sockets O) (radio : Radio pmt W)
    (plugin_directories : List String) where
  open radio use {Scheduler}

  -- Whatever a stop throws is dropped.
  unfoldable pub stop_all : Assoc (Resources Scheduler) → Shared O W → Shared O W
  unfolding stop_locked
  stop_all [] shared = shared
  stop_all ((id, r) ∷ resources) shared =
      stop_all resources
        (stop_locked pmt sockets radio plugin_directories (only_id r.session_id)
          (record { own = r; shared = shared })).1.shared

  unfoldable pub destruct : Manager O W Scheduler → Manager O W Scheduler
  unfolding stop_all
  destruct s = record { resources = []; shared = stop_all s.resources s.shared }
