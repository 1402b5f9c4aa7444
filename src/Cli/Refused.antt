-- ===== src/Cli/Refused.antt =====
-- src/cli/cli.cpp against the error answers of src/api/http_server.cpp.
use gnuradio4_control_plane.Prelude.{
  String, ◌≡◌, refl, ap, false, Option, none, some, [], ◌∷◌, ◌<>◌, leb, ltb, ◌&&◌, nat_eq, find,
}
use gnuradio4_control_plane.Errors.{
  Exception, validation_error, not_found_error, invalid_state_error, runtime_error, timeout_error,
  block_not_found_error, reply_timeout_error, catalog_load_error, scheduler_catalog_load_error,
  std_error, unknown, what, ok, err, continue,
}
use gnuradio4_control_plane.Json.{JsonLibrary}
use gnuradio4_control_plane.Catalog.{pos}
use gnuradio4_control_plane.Streams.Blocks.{is_empty}
use gnuradio4_control_plane.Runtime.Graph.Ports.{codes, number_from}
use gnuradio4_control_plane.Http.{
  Response, ErrorDetails, current_error_details, handle_exception, set_error_response,
  set_json_response,
}
use gnuradio4_control_plane.Cli.Url.{
  ParsedUrl, parse_url, behind, split_colon, stoi, skip_spaces, leading_digits,
}
use gnuradio4_control_plane.Cli.Options.{parse_common_options}
use gnuradio4_control_plane.Cli.{
  Reply, Client, Method, get, post, delete, default_url, find_error_message, error_of, texts_of,
  text_in, perform_request, json_of, empty_of, request_json, request_no_content, on_session,
  run_on_session, run_command, run_sessions, run,
}

-- The commands on one session.
pub data SessionCommand : Type 0 where
  get_session start_session stop_session restart_session delete_session : SessionCommand

abbrev pub command_name : SessionCommand → String
command_name get_session = "get"
command_name start_session = "start"
command_name stop_session = "stop"
command_name restart_session = "restart"
command_name delete_session = "delete"

abbrev pub local : ParsedUrl
local = record { host = codes "127.0.0.1"; port = pos 8080 }

parse_url-default : parse_url default_url ≡ ok local
unfolding parse_url behind split_colon stoi skip_spaces leading_digits number_from
parse_url-default = refl

-- What the client prints for an exception of the server.
abbrev pub printed_error : Exception → String
printed_error e = (current_error_details e).code <> ": " <> (current_error_details e).message

-- The status of an error is no success.
refused_status :
    (e : Exception)
    → ((leb 200 (current_error_details e).status && ltb (current_error_details e).status 300)
        ≡ false)
      × (nat_eq (current_error_details e).status 204 ≡ false)
unfolding current_error_details
refused_status (validation_error text) = (refl, refl)
refused_status (not_found_error text) = (refl, refl)
refused_status (invalid_state_error text) = (refl, refl)
refused_status (runtime_error text) = (refl, refl)
refused_status (timeout_error text) = (refl, refl)
refused_status (block_not_found_error text) = (refl, refl)
refused_status (reply_timeout_error text) = (refl, refl)
refused_status (catalog_load_error text) = (refl, refl)
refused_status (scheduler_catalog_load_error text) = (refl, refl)
refused_status (std_error text) = (refl, refl)
refused_status unknown = (refl, refl)

module _ (json : JsonLibrary) where
  open json use {Json, text, object, parse, dump, member, as_text}

  -- The document of an error.
  abbrev pub document : ErrorDetails → Json
  document details = object (
      ("error", object (("code", text details.code) ∷ ("message", text details.message) ∷ [])) ∷ [])

  -- A text is read back as the document that it was made from.
  abbrev pub ReadBack : Json → Type 0
  ReadBack body = (parse (dump body) ≡ some body) × (is_empty (dump body) ≡ false)

  abbrev pub reply_of : Response → Reply
  reply_of response = record { status = response.status; body = response.body }

  find_error_message-handle_exception :
      (e : Exception)
      → ReadBack (document (current_error_details e))
      → find_error_message json (reply_of (handle_exception json e)) ≡ some (printed_error e)
  unfolding find_error_message handle_exception set_error_response set_json_response find
  find_error_message-handle_exception e h =
      let details = current_error_details e in
      rw
        (
          h.1,
          find_error_message,
          h.0,
          error_of,
          json.member-object "error" (
              (
                "error",
                object (("code", text details.code) ∷ ("message", text details.message) ∷ []),
              )
              ∷ []),
          texts_of,
          json.member-object "code"
              (("code", text details.code) ∷ ("message", text details.message) ∷ []),
          json.member-object "message"
              (("code", text details.code) ∷ ("message", text details.message) ∷ []),
          text_in,
          json.as_text-text details.code,
          json.as_text-text details.message,
        )
        refl

  -- The server answers every request with the exception.
  abbrev pub Refuses : {W : Type 0} → Client json W → ParsedUrl → W → Exception → Type 0
  Refuses client url w e =
      (method : Method) (path : String) (body : Option Json)
      → (perform_request json client url method path body w).0
        ≡ some (reply_of (handle_exception json e))

  module _ {W : Type 0} (client : Client json W) (url : ParsedUrl) (w : W) (e : Exception)
      (reads : ReadBack (document (current_error_details e))) (h : Refuses client url w e) where
    json_of-refused :
        json_of json client (reply_of (handle_exception json e)) ≡ err (std_error (printed_error e))
    unfolding handle_exception set_error_response set_json_response
    json_of-refused = rw ((refused_status e).0, find_error_message-handle_exception e reads) refl

    empty_of-refused :
        empty_of json client (reply_of (handle_exception json e))
        ≡ err (std_error (printed_error e))
    unfolding handle_exception set_error_response set_json_response
    empty_of-refused = rw ((refused_status e).1, find_error_message-handle_exception e reads) refl

    request_json-refused :
        (method : Method) (path : String) (body : Option Json)
        → (request_json json client url method path body w).0 ≡ err (std_error (printed_error e))
    unfolding request_json
    request_json-refused method path body = rw (h method path body) json_of-refused

    request_no_content-refused :
        (method : Method) (path : String)
        → (request_no_content json client url method path w).0 ≡ err (std_error (printed_error e))
    unfolding request_no_content
    request_no_content-refused method path = rw (h method path none) empty_of-refused

    on_session-refused :
        (c : SessionCommand) (id : String)
        → (on_session json client (command_name c) url id w).0 ≡ err (std_error (printed_error e))
    on_session-refused get_session id = rw (request_json-refused get ("/sessions/" <> id) none) refl
    on_session-refused start_session id =
        rw (request_json-refused post ("/sessions/" <> id <> "/start") none) refl
    on_session-refused stop_session id =
        rw (request_json-refused post ("/sessions/" <> id <> "/stop") none) refl
    on_session-refused restart_session id =
        rw (request_json-refused post ("/sessions/" <> id <> "/restart") none) refl
    on_session-refused delete_session id =
        rw (request_no_content-refused delete ("/sessions/" <> id)) refl

  run_local :
      {W : Type 0} (client : Client json W) (c : SessionCommand) (id : String) (w : W)
      → continue (parse_url default_url) (λ url. on_session json client (command_name c) url id) w
        ≡ on_session json client (command_name c) local id w
  run_local client c id w =
      ap (λ r. continue r (λ url. on_session json client (command_name c) url id) w)
        parse_url-default

  run_command-session :
      {W : Type 0} (client : Client json W) (c : SessionCommand) (id : String) (w : W)
      → run_command json client (command_name c) (id ∷ []) w
        ≡ on_session json client (command_name c) local id w
  unfolding run_command run_on_session parse_common_options
  run_command-session client get_session id w = run_local client get_session id w
  run_command-session client start_session id w = run_local client start_session id w
  run_command-session client stop_session id w = run_local client stop_session id w
  run_command-session client restart_session id w = run_local client restart_session id w
  run_command-session client delete_session id w = run_local client delete_session id w

  -- If the server answers with an exception, and its document is read back, then the client's get,
  -- start, stop, restart and delete of a session print the code and the text of that exception to the
  -- error stream, nothing else, and exit with 1.
  pub run-refused :
      {W : Type 0} (client : Client json W) (c : SessionCommand) (id : String) (w : W)
      (e : Exception)
      → ReadBack (document (current_error_details e))
      → Refuses client local w e
      → (run json client ("sessions" ∷ command_name c ∷ id ∷ []) w).0
        ≡ ok (record { code = 1; out = ""; err = printed_error e <> "\n" })
  unfolding run run_sessions what
  run-refused client c id w e reads h =
      rw (run_command-session client c id w, on_session-refused client local w e reads h c id) refl
