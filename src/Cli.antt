-- ===== src/Cli.antt =====
-- src/cli/cli.cpp: the command line client. What it writes to its two streams is part of the outcome.
-- `CliError` and every other `std::exception` are handled alike. The HTTP client, the files and the
-- texts that the JSON library makes beside `dump` are parameters. `dump` throws for a text that is not
-- UTF-8, which the parameter does not do.
pub mod Url
pub mod Options
pub mod Refused
pub mod Creating
use gnuradio4_control_plane.Prelude.{
  ℕ, String, Bool, true, false, ◌&&◌, ◌||◌, not, Option, none, some, List, [], ◌∷◌, if◌then◌else◌,
  ◌==◌, ◌<>◌, leb, ltb, nat_eq, decimal,
}
use gnuradio4_control_plane.Errors.{
  Exec, Exception, Result, ok, err, pure, throw, lift, continue, ◌>>=◌, ◌>>◌, std_error, what,
}
use gnuradio4_control_plane.Json.{JsonLibrary}
use gnuradio4_control_plane.Streams.Blocks.{is_empty}
use gnuradio4_control_plane.Cli.Options.{parse_common_options, CreateOptions, parse_create_options}
use gnuradio4_control_plane.Cli.Url.{ParsedUrl, parse_url}

abbrev pub default_url : String
default_url = "http://127.0.0.1:8080"

unfoldable pub usage : String
usage =
    "usage:\n" <> "  gr4cp-cli sessions create --file <path> [--name <name>] [--url <url>]\n"
    <> "  gr4cp-cli sessions list [--url <url>]\n"
    <> "  gr4cp-cli sessions get <id> [--url <url>]\n"
    <> "  gr4cp-cli sessions start <id> [--url <url>]\n"
    <> "  gr4cp-cli sessions stop <id> [--url <url>]\n"
    <> "  gr4cp-cli sessions restart <id> [--url <url>]\n"
    <> "  gr4cp-cli sessions delete <id> [--url <url>]\n"

-- `httplib::Response`, as far as it is looked at.
pub record Reply : Type 0 where
  pub status : ℕ
  pub body : String

-- The exit code, and what is written to `out` and to `err`.
pub record Outcome : Type 0 where
  pub code : ℕ
  pub out : String
  pub err : String

-- A request answers with `none` where it fails. `pretty` is `dump(2)`, and `parse_error` the text of
-- the exception that the reading of a body throws.
pub record Client (json : JsonLibrary) (W : Type 0) : Type 0 where
  pub get : ParsedUrl → String → W → Option Reply × W
  pub delete : ParsedUrl → String → W → Option Reply × W
  pub post : ParsedUrl → String → String → W → Option Reply × W
  pub read : String → W → Option String × W
  pub pretty : json.Json → String
  pub parse_error : String → String

pub data Method : Type 0 where
  get post delete : Method

module _ (json : JsonLibrary) where
  open json use {Json, as_text, member, parse, text, object, dump}

  abbrev error_text : Option String → Option String → Option String
  error_text (some code) (some message) = some (code <> ": " <> message)
  error_text _ _ = none

  -- `is_string` on what `find` gives.
  abbrev pub text_in : Option Json → Option String
  text_in none = none
  text_in (some value) = as_text value

  abbrev pub texts_of : Option Json → Option String
  texts_of none = none
  texts_of (some error) =
      error_text (text_in (member "code" error)) (text_in (member "message" error))

  abbrev pub error_of : Option Json → Option String
  error_of none = none
  error_of (some body) = texts_of (member "error" body)

  unfoldable pub find_error_message : Reply → Option String
  find_error_message reply = if is_empty reply.body then none else error_of (parse reply.body)

  -- What is thrown for a reply that is no success.
  abbrev pub refusal : Reply → Option String → Exception
  refusal reply none = std_error ("server returned HTTP " <> decimal reply.status)
  refusal reply (some error) = std_error error

  abbrev payload : Option Json → String
  payload none = ""
  payload (some body) = dump body

  abbrev pub creation_body : String → String → Json
  creation_body name grc = object (("name", text name) ∷ ("grc", text grc) ∷ [])

  module _ {W : Type 0} (client : Client json W) where
    unfoldable pub perform_request :
        ParsedUrl → Method → String → Option Json → W → Option Reply × W
    perform_request url get path body = client.get url path
    perform_request url delete path body = client.delete url path
    perform_request url post path body = client.post url path (payload body)

    abbrev require_response : Option Reply → Result Reply
    require_response none = err (std_error "request failed")
    require_response (some reply) = ok reply

    abbrev parsed_or : String → Option Json → Result Json
    parsed_or body none = err (std_error (client.parse_error body))
    parsed_or body (some value) = ok value

    -- The `Json{}` of an empty body is null.
    abbrev success_json : Reply → Result Json
    success_json reply =
        if is_empty reply.body then ok json.null else parsed_or reply.body (parse reply.body)

    abbrev pub json_of : Reply → Result Json
    json_of reply =
        if leb 200 reply.status && ltb reply.status 300
        then success_json reply
        else err (refusal reply (find_error_message reply))

    abbrev requested : ParsedUrl → Method → String → Option Json → Exec W Reply
    requested url method path body w =
        let (reply, next) = perform_request url method path body w in (require_response reply, next)

    unfoldable pub request_json : ParsedUrl → Method → String → Option Json → Exec W Json
    unfolding perform_request find_error_message
    request_json url method path body = do
      reply ← requested url method path body
      lift (json_of reply)

    abbrev pub empty_of : Reply → Result (Unit {0})
    empty_of reply =
        if nat_eq reply.status 204 then ok tt else err (refusal reply (find_error_message reply))

    unfoldable pub request_no_content : ParsedUrl → Method → String → Exec W (Unit {0})
    unfolding perform_request find_error_message
    request_no_content url method path = do
      reply ← requested url method path none
      lift (empty_of reply)

    abbrev printed : ParsedUrl → Method → String → Option Json → Exec W String
    printed url method path body = do
      answer ← request_json url method path body
      pure (client.pretty answer <> "\n")

    abbrev read_file : String → Exec W String
    read_file path w =
        let (content, next) = client.read path w in
        (
          elim content [ none ↦ err (std_error ("failed to read file: " <> path)) | some s ↦ ok s ],
          next,
        )

    abbrev file_given : CreateOptions → Result (Unit {0})
    file_given options =
        if is_empty options.file_path then err (std_error "create requires --file") else ok tt

    unfoldable pub run_create : List String → Exec W String
    unfolding parse_create_options request_json parse_url
    run_create args = do
      options ←
          lift (parse_create_options (record { file_path = ""; name = ""; url = default_url }) args)
      lift (file_given options)
      url ← lift (parse_url options.url)
      content ← read_file options.file_path
      printed url post "/sessions" (some (creation_body options.name content))

    unfoldable pub run_list : List String → Exec W String
    unfolding parse_common_options request_json parse_url
    run_list args = do
      given ← lift (parse_common_options default_url args)
      url ← lift (parse_url given)
      printed url get "/sessions" none

    abbrev run_delete : ParsedUrl → String → Exec W String
    run_delete url id = do
      request_no_content url delete ("/sessions/" <> id)
      pure ("deleted " <> id <> "\n")

    abbrev pub on_session : String → ParsedUrl → String → Exec W String
    on_session command url id =
        if command == "get"
        then printed url get ("/sessions/" <> id) none
        else if command == "start"
        then printed url post ("/sessions/" <> id <> "/start") none
        else if command == "stop"
        then printed url post ("/sessions/" <> id <> "/stop") none
        else if command == "restart"
        then printed url post ("/sessions/" <> id <> "/restart") none
        else run_delete url id

    unfoldable pub run_on_session : String → List String → Exec W String
    unfolding parse_common_options request_json request_no_content parse_url
    run_on_session command [] = throw (std_error (command <> " requires a session id"))
    run_on_session command (id ∷ args) = do
      given ← lift (parse_common_options default_url args)
      url ← lift (parse_url given)
      on_session command url id

    unfoldable pub run_command : String → List String → Exec W String
    unfolding run_create run_list run_on_session
    run_command command args =
        if command == "create"
        then run_create args
        else if command == "list"
        then run_list args
        else if command == "get"
            || command == "start"
            || command == "stop"
            || command == "restart"
            || command == "delete"
        then run_on_session command args
        else throw (std_error ("unknown sessions command: " <> command))

    abbrev failed_outcome : Exception → Option String → Result Outcome
    failed_outcome e none = err e
    failed_outcome e (some text) = ok (record { code = 1; out = ""; err = text <> "\n" })

    -- The handlers; an exception that is no `std::exception` passes.
    abbrev pub outcome : Result String → Result Outcome
    outcome (ok text) = ok (record { code = 0; out = text; err = "" })
    outcome (err e) = failed_outcome e (what e)

    abbrev pub print_usage : Exec W Outcome
    print_usage = pure (record { code = 1; out = ""; err = usage })

    unfoldable pub run_sessions : List String → Exec W Outcome
    unfolding run_command usage
    run_sessions (group ∷ command ∷ args) w =
        let (result, next) = run_command command args w in
        if group == "sessions" then (outcome result, next) else print_usage w
    run_sessions _ w = print_usage w

    unfoldable pub run : List String → Exec W Outcome
    unfolding run_sessions usage
    run [] = print_usage
    run (arg ∷ args) = run_sessions (arg ∷ args)
