-- ===== src/Http/Settings.antt =====
-- The settings routes of src/api/http_server.cpp, and its test for a websocket request. The arguments
-- of a route are the parts of its path, decoded, its body and its parameter `mode`; the body is read
-- before the mode, an order that the source leaves open.
use gnuradio4_control_plane.Prelude.{String, Bool, ◌&&◌, ◌||◌, [], ◌∷◌, ◌==◌, has_value, find?}
use gnuradio4_control_plane.Errors.{Exec, pure, lift, ◌>>=◌}
use gnuradio4_control_plane.Json.{JsonLibrary}
use gnuradio4_control_plane.Runtime.{RuntimeManager}
use gnuradio4_control_plane.Service.State.{World}
use gnuradio4_control_plane.Settings
use gnuradio4_control_plane.Settings.{BlockSettingsUpdateResult}
use gnuradio4_control_plane.Settings.Values.{JsonValue, PropertyMap}
use gnuradio4_control_plane.Http.{Response, set_json_response, execute}
use gnuradio4_control_plane.Http.Requests.{parse_json_body, parse_settings_mode}

-- On the headers `Upgrade` and `Connection`, which are empty where they are missing.
unfoldable pub is_websocket_upgrade_request : String → String → Bool
is_websocket_upgrade_request upgrade connection =
    upgrade == "websocket"
    && (has_value (find? connection "Upgrade") || has_value (find? connection "upgrade"))

-- `value` is a document as a tree, and `document` a tree as a document.
module _ (json : JsonLibrary) (value : json.Json → JsonValue json.Double)
    (document : JsonValue json.Double → json.Json) {R : Type 0}
    (manager : RuntimeManager (PropertyMap json.Double) R) where
  open json use {Json, text, boolean, object}

  unfoldable pub block_settings_update_to_json : BlockSettingsUpdateResult → Json
  block_settings_update_to_json result = object (
      ("session_id", text result.session_id)
      ∷ ("block", text result.block)
      ∷ ("applied_via", text result.applied_via)
      ∷ ("accepted", boolean result.accepted)
      ∷ [])

  abbrev handle : Exec (World R) Response → World R → Response × World R
  handle action w = (execute json (action w).0, (action w).1)

  -- `POST /sessions/{id}/blocks/{block}/settings`.
  unfoldable pub post_settings : String → String → String → String → World R → Response × World R
  unfolding block_settings_update_to_json
  post_settings session_id block_unique_name body mode = handle (do
    patch ← lift (parse_json_body json body)
    chosen ← lift (parse_settings_mode mode)
    result ← Settings.update manager session_id block_unique_name (value patch) chosen
    pure (set_json_response json 200 (block_settings_update_to_json result)))

  -- `GET /sessions/{id}/blocks/{block}/settings`.
  unfoldable pub get_settings : String → String → World R → Response × World R
  get_settings session_id block_unique_name = handle (do
    settings ← Settings.get manager session_id block_unique_name
    pure (set_json_response json 200 (object (("settings", document settings) ∷ []))))
