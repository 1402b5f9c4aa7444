-- ===== src/Http/Sessions.antt =====
-- The session routes of src/api/http_server.cpp. The arguments of a route are the parts of its path,
-- decoded, and its body; the three readings of `POST /sessions` are made in the order of the
-- arguments of `create`.
pub mod Conflicts
pub mod Created
use gnuradio4_control_plane.Prelude.{
  ℕ, String, Bool, true, false, Option, none, some, List, [], ◌∷◌,
}
use gnuradio4_control_plane.Errors.{Exec, Result, ok, err, pure, lift, ◌>>=◌, ◌>>◌}
use gnuradio4_control_plane.Domain.Session.{Session}
use gnuradio4_control_plane.Domain.Stream.{StreamRuntimePlan}
use gnuradio4_control_plane.Runtime.{RuntimeManager, HttpStreamResponse}
use gnuradio4_control_plane.Service.State.{World}
use gnuradio4_control_plane.Service.Ids
use gnuradio4_control_plane.Service.Operations
use gnuradio4_control_plane.Service.Reading
use gnuradio4_control_plane.Json.{JsonLibrary}
use gnuradio4_control_plane.Http.{
  Response, ErrorDetails, set_json_response, set_error_response, execute,
}
use gnuradio4_control_plane.Http.Encode.{session_to_json, sessions_to_json}
use gnuradio4_control_plane.Http.Requests.{
  parse_json_body, get_required_grc, get_optional_name, get_optional_scheduler_id,
}

abbrev pub no_content : Response
no_content = record { status = 204; body = ""; content_type = "" }

abbrev set_http_stream_response : HttpStreamResponse → Response
set_http_stream_response stream = record {
  status = stream.status;
  body = stream.body;
  content_type = stream.content_type;
}

pub record Creation : Type 0 where
  pub name : String
  pub grc : String
  pub scheduler_id : Option String

module _ (json : JsonLibrary) (format_timestamp_utc : ℕ → String) {P R : Type 0}
    (manager : RuntimeManager P R) where
  open json use {Json}

  abbrev pub reply : ℕ → Session → Option StreamRuntimePlan → Response
  reply status session plan =
      set_json_response json status (session_to_json json format_timestamp_utc session plan)

  -- A handler: the action under `execute`.
  abbrev pub handle : Exec (World R) Response → World R → Response × World R
  handle action w = (execute json (action w).0, (action w).1)

  abbrev pub reading : String → Exec Unit Creation
  reading request = do
    body ← lift (parse_json_body json request)
    name ← lift (get_optional_name json body)
    grc ← lift (get_required_grc json body)
    scheduler_id ← lift (get_optional_scheduler_id json body)
    pure (record { name = name; grc = grc; scheduler_id = scheduler_id })

  unfoldable pub read_creation : String → Result Creation
  unfolding parse_json_body get_optional_name get_required_grc get_optional_scheduler_id
  read_creation request = (reading request tt).0

  abbrev pub created : Option (Result Session × World R) → Option (Response × World R)
  created none = none
  created (some (ok session, w)) = some (reply 201 session none, w)
  created (some (err e, w)) = some (execute json (err e), w)

  -- `POST /sessions`; `none` while `create` is looking for an unused id.
  unfoldable pub post_sessions : List ℕ → ℕ → String → World R → Option (Response × World R)
  post_sessions draws now request w = elim (read_creation request) [
    | err e ↦ some (execute json (err e), w)
    | ok c ↦ created (Ids.create c.name c.grc c.scheduler_id draws now w)
  ]

  unfoldable pub plans_of : List Session → Exec (World R) (List (Option StreamRuntimePlan))
  plans_of [] = pure []
  plans_of (session ∷ sessions) = do
    plan ← Reading.active_stream_plan manager session.id
    plans ← plans_of sessions
    pure (plan ∷ plans)

  -- `GET /sessions`.
  unfoldable pub get_sessions : World R → Response × World R
  unfolding plans_of
  get_sessions = handle (do
    sessions ← Reading.list
    plans ← plans_of sessions
    pure (set_json_response json 200 (sessions_to_json json format_timestamp_utc sessions plans)))

  -- `GET /sessions/{id}`.
  unfoldable pub get_session : String → World R → Response × World R
  get_session id = handle (do
    session ← Operations.get id
    plan ← Reading.active_stream_plan manager session.id
    pure (reply 200 session plan))

  -- `DELETE /sessions/{id}`.
  unfoldable pub delete_session : String → ℕ → World R → Response × World R
  delete_session id now = handle (do Operations.remove manager id now; pure no_content)

  -- `POST /sessions/{id}/start`, `/stop` and `/restart`.
  unfoldable pub post_start : String → ℕ → World R → Response × World R
  post_start id now =
      handle (do session ← Operations.start manager id now; pure (reply 200 session none))

  unfoldable pub post_stop : String → ℕ → World R → Response × World R
  post_stop id now =
      handle (do session ← Operations.stop manager id now; pure (reply 200 session none))

  unfoldable pub post_restart : String → ℕ → World R → Response × World R
  post_restart id now =
      handle (do session ← Operations.restart manager id now; pure (reply 200 session none))

  -- `GET /sessions/{id}/streams/{stream_id}/http`.
  unfoldable pub get_stream : String → String → World R → Response × World R
  get_stream id stream_id = handle (do
    stream ← Reading.fetch_http_stream manager id stream_id
    pure (set_http_stream_response stream))
