-- ===== src/Settings.antt =====
-- src/app/block_settings_service.cpp: the settings of the blocks of a running session.
pub mod Values
pub mod RoundTrip
pub mod Answers
pub mod Refusals
use gnuradio4_control_plane.Prelude.{String, Bool, true, Option, none, some, ◌<>◌}
use gnuradio4_control_plane.Errors.{
  Exec, Exception, Result, ok, err, pure, lift, ◌>>=◌, ◌>>◌, validation_error, not_found_error,
  invalid_state_error, runtime_error, timeout_error, block_not_found_error, reply_timeout_error,
  unknown, what, continue,
}
use gnuradio4_control_plane.Prelude.{if◌then◌else◌}
use gnuradio4_control_plane.Domain.Session.{Session, is_running}
use gnuradio4_control_plane.Storage
use gnuradio4_control_plane.Runtime
use gnuradio4_control_plane.Runtime.{RuntimeManager, BlockSettingsMode}
use gnuradio4_control_plane.Service.State.{World, on_runtime}
use gnuradio4_control_plane.Settings.Values.{
  JsonValue, PropertyMap, json_to_property_map, property_map_to_json,
}

pub record BlockSettingsUpdateResult : Type 0 where
  pub session_id : String
  pub block : String
  pub applied_via : String
  pub accepted : Bool

-- The handlers around the calls of the runtime manager.
abbrev pub as_runtime_error : Exception → Option String → Exception
as_runtime_error e none = e
as_runtime_error e (some text) = runtime_error text

unfoldable pub translated : Exception → Exception
unfolding what
translated (block_not_found_error text) = not_found_error text
translated (reply_timeout_error text) = timeout_error text
translated e = as_runtime_error e (what e)

abbrev pub translate : {A : Type 0} → Result A → Result A
translate (ok a) = ok a
translate (err e) = err (translated e)

abbrev pub running_or : String → Option Session → Result Session
running_or session_id none = err (not_found_error ("session not found: " <> session_id))
running_or session_id (some session) =
    if is_running session.state
    then ok session
    else err (invalid_state_error ("session not running: " <> session_id))

module _ {D R : Type 0} (manager : RuntimeManager (PropertyMap D) R) where
  unfoldable pub load_running_session_or_throw : String → Exec (World R) Session
  load_running_session_or_throw session_id w =
      (running_or session_id (Storage.get session_id w.repository), w)

  -- A `try` block.
  abbrev pub trying : {A : Type 0} → Exec (World R) A → Exec (World R) A
  trying m w = (translate (m w).0, (m w).1)

  unfoldable pub update :
      String → String → JsonValue D → BlockSettingsMode → Exec (World R) BlockSettingsUpdateResult
  unfolding load_running_session_or_throw json_to_property_map translated Runtime.to_string
  update session_id block_unique_name patch mode = do
    session ← load_running_session_or_throw session_id
    property_map ← lift (json_to_property_map patch)
    trying (on_runtime (manager.set_block_settings session block_unique_name property_map mode))
    pure (record {
      session_id = session.id;
      block = block_unique_name;
      applied_via = Runtime.to_string mode;
      accepted = true;
    })

  -- The conversion is in the `try` block too.
  unfoldable pub get : String → String → Exec (World R) (JsonValue D)
  unfolding load_running_session_or_throw property_map_to_json translated
  get session_id block_unique_name = do
    session ← load_running_session_or_throw session_id
    trying (do
      settings ← on_runtime (manager.get_block_settings session block_unique_name)
      lift (property_map_to_json settings))
