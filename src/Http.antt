-- ===== src/Http.antt =====
-- src/api/http_server.cpp: the answers of the server. The matching of the routes, the sockets and the
-- websocket bridge are left out; the arguments of a route are decoded already.
pub mod Encode
pub mod Requests
pub mod Catalogs
pub mod Sessions
pub mod Targets
pub mod Settings
use gnuradio4_control_plane.Prelude.{ℕ, String, List, [], ◌∷◌}
use gnuradio4_control_plane.Errors.{
  Exception, validation_error, not_found_error, invalid_state_error, runtime_error, timeout_error,
  block_not_found_error, reply_timeout_error, catalog_load_error, scheduler_catalog_load_error,
  std_error, unknown, Result, ok, err,
}
use gnuradio4_control_plane.Json.{JsonLibrary}

pub record Response : Type 0 where
  pub status : ℕ
  pub body : String
  pub content_type : String

pub record ErrorDetails : Type 0 where
  pub status : ℕ
  pub code : String
  pub message : String

abbrev internal_error : ErrorDetails
internal_error = record { status = 500; code = "internal_error"; message = "internal server error" }

unfoldable pub current_error_details : Exception → ErrorDetails
current_error_details (validation_error text) = record {
  status = 400;
  code = "validation_error";
  message = text;
}
current_error_details (not_found_error text) = record {
  status = 404;
  code = "not_found";
  message = text;
}
current_error_details (invalid_state_error text) = record {
  status = 409;
  code = "invalid_state";
  message = text;
}
current_error_details (runtime_error text) = record {
  status = 500;
  code = "runtime_error";
  message = text;
}
current_error_details (timeout_error text) = record {
  status = 504;
  code = "timeout";
  message = text;
}
current_error_details (scheduler_catalog_load_error text) = record {
  status = 500;
  code = "scheduler_catalog_error";
  message = text;
}
current_error_details (catalog_load_error text) = record {
  status = 500;
  code = "catalog_error";
  message = text;
}
current_error_details (block_not_found_error text) = internal_error
current_error_details (reply_timeout_error text) = internal_error
current_error_details (std_error text) = internal_error
current_error_details unknown = internal_error

module _ (json : JsonLibrary) where
  open json use {Json, text, object, dump}

  unfoldable pub set_json_response : ℕ → Json → Response
  set_json_response status body = record {
    status = status;
    body = dump body;
    content_type = "application/json";
  }

  unfoldable pub set_error_response : ErrorDetails → Response
  unfolding set_json_response
  set_error_response details = set_json_response details.status (
      object (
        ("error", object (("code", text details.code) ∷ ("message", text details.message) ∷ []))
        ∷ []))

  unfoldable pub handle_exception : Exception → Response
  unfolding current_error_details set_error_response
  handle_exception e = set_error_response (current_error_details e)

  -- The response of an action, or the one of the exception that it throws.
  unfoldable pub execute : Result Response → Response
  unfolding handle_exception
  execute (ok response) = response
  execute (err e) = handle_exception e
