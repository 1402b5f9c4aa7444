-- ===== src/Http/Requests.antt =====
-- The readings of a request in src/api/http_server.cpp.
use gnuradio4_control_plane.Prelude.{String, ◌||◌, Option, none, some, if◌then◌else◌, ◌==◌}
use gnuradio4_control_plane.Errors.{Result, ok, err, validation_error}
use gnuradio4_control_plane.Streams.Blocks.{is_empty}
use gnuradio4_control_plane.Runtime.{BlockSettingsMode, staged, immediate}
use gnuradio4_control_plane.Json.{JsonLibrary}

-- The parameter `mode`, which is empty where it is missing.
unfoldable pub parse_settings_mode : String → Result BlockSettingsMode
parse_settings_mode mode =
    if is_empty mode || mode == "staged"
    then ok staged
    else if mode == "immediate"
    then ok immediate
    else err (validation_error "mode must be 'staged' or 'immediate'")

abbrev filled_or : Option String → Result String
filled_or none = err (validation_error "grc must be a non-empty string")
filled_or (some grc) =
    if is_empty grc then err (validation_error "grc must be a non-empty string") else ok grc

abbrev text_or : String → Option String → Result String
text_or message none = err (validation_error message)
text_or message (some s) = ok s

abbrev filled : Option String → Result (Option String)
filled none = err (validation_error "scheduler_id must be a string")
filled (some id) = if is_empty id then ok none else ok (some id)

module _ (json : JsonLibrary) where
  open json use {Json, is_null, as_text, member, parse}

  abbrev pub body_or : Option Json → Result Json
  body_or none = err (validation_error "request body must be valid JSON")
  body_or (some body) = ok body

  unfoldable pub parse_json_body : String → Result Json
  parse_json_body body = body_or (parse body)

  unfoldable pub get_required_grc : Json → Result String
  get_required_grc body = elim (member "grc" body) [
    | none ↦ err (validation_error "grc must be a non-empty string")
    | some value ↦ filled_or (as_text value)
  ]

  unfoldable pub get_optional_name : Json → Result String
  get_optional_name body = elim (member "name" body) [
    | none ↦ ok ""
    | some value ↦ if is_null value then ok "" else text_or "name must be a string" (as_text value)
  ]

  unfoldable pub get_optional_scheduler_id : Json → Result (Option String)
  get_optional_scheduler_id body = elim (member "scheduler_id" body) [
    | none ↦ ok none
    | some value ↦ if is_null value then ok none else filled (as_text value)
  ]
