-- ===== src/Runtime/Radio.antt =====
-- What `Gr4RuntimeManager` (src/runtime/gr4_runtime_manager.cpp) uses of GNU Radio 4 and of its HTTP
-- client, which are not part of the repository: `O` is the state of the sockets' and the library's
-- world. `bootstrap` loads the plugins (`configure_plugin_environment`, the preloading of libraries
-- and `availableBlocks`). The messages to a running block, with their deadline, are `request_set` and
-- `request_get`.
use gnuradio4_control_plane.Prelude.{ℕ, String, Option, List, Assoc}
use gnuradio4_control_plane.Errors.{Exec}
use gnuradio4_control_plane.Pmt.{Pmt}

-- `gr::BlockModel`, as far as it is looked at.
pub record RuntimeBlock (V : Type 0) : Type 0 where
  pub name : String
  pub unique_name : String
  pub type_name : String
  pub settings : Assoc V

pub record HttpReply : Type 0 where
  pub status : ℕ
  pub body : String
  pub content_type : String

-- The state `W` is the library's; the sockets of the port allocator are another.
pub record Radio (pmt : Pmt) (W : Type 0) : Type 1 where
  pub Graph : Type 0
  pub Scheduler : Type 0
  pub bootstrap : List String → Exec W (Unit {0})
  pub load_grc : String → Exec W Graph
  pub available_schedulers : Exec W (List String)
  pub instantiate_scheduler : String → Exec W (Option Scheduler)
  pub set_graph : Scheduler → Graph → Exec W (Unit {0})
  pub start : Scheduler → Exec W (Unit {0})
  pub stop : Scheduler → Exec W (Unit {0})
  pub runtime_blocks : Scheduler → W → Option (List (RuntimeBlock pmt.Value))
  pub request_set : Scheduler → String → String → Assoc pmt.Value → Exec W (Unit {0})
  pub request_get : Scheduler → String → String → Exec W (Assoc pmt.Value)
  pub http_get : String → ℕ → String → Exec W (Option HttpReply)
