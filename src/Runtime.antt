-- ===== src/Runtime.antt =====
-- The runtime side: runtime/runtime_manager.hpp, the interface that the services call, and
-- runtime/block_settings.hpp.
pub mod Allocator
pub mod Graph
pub mod Radio
pub mod Gr4
pub mod Stub
use gnuradio4_control_plane.Prelude.{ℕ, String, Option}
use gnuradio4_control_plane.Errors.{Exec}
use gnuradio4_control_plane.Domain.Session.{Session}
use gnuradio4_control_plane.Domain.Stream.{StreamRuntimePlan, InternalStreamBinding}

pub record HttpStreamResponse : Type 0 where
  pub status : ℕ
  pub body : String
  pub content_type : String

pub record WebSocketStreamRoute : Type 0 where
  pub internal : InternalStreamBinding

pub data BlockSettingsMode : Type 0 where
  staged immediate : BlockSettingsMode

unfoldable pub to_string : BlockSettingsMode → String
to_string staged = "staged_settings"
to_string immediate = "settings"

-- A runtime manager over its own state `R`; `P` is the type of property maps. Each method may
-- change the state and throw.
pub record RuntimeManager (P R : Type 0) : Type 0 where
  pub prepare : Session → Exec R (Unit {0})
  pub start : Session → Exec R (Unit {0})
  pub stop : Session → Exec R (Unit {0})
  pub destroy : Session → Exec R (Unit {0})
  pub active_stream_plan : Session → Exec R (Option StreamRuntimePlan)
  pub fetch_http_stream : Session → String → Exec R HttpStreamResponse
  pub resolve_websocket_stream : Session → String → Exec R WebSocketStreamRoute
  pub set_block_settings : Session → String → P → BlockSettingsMode → Exec R (Unit {0})
  pub get_block_settings : Session → String → Exec R P
