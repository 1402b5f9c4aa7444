-- ===== src/Service/Reading.antt =====
-- The methods of src/app/session_service.cpp that change no session: `list`, and the three that ask
-- the runtime manager about the streams of a running session.
pub mod Ordering
pub mod Retries
pub mod Refusals
use gnuradio4_control_plane.Prelude.{
  ℕ, zero, suc, String, Bool, true, false, ◌&&◌, ◌||◌, not, Option, none, some, List, if◌then◌else◌,
  ltb, nat_eq, has_value, find?, text_lt, sort,
}
use gnuradio4_control_plane.Errors.{
  Exec, Exception, Result, ok, err, pure, throw, ◌>>=◌, ◌>>◌, invalid_state_error, runtime_error,
  what,
}
use gnuradio4_control_plane.Prelude.{◌<>◌}
use gnuradio4_control_plane.Domain.Session.{Session, is_running}
use gnuradio4_control_plane.Domain.Stream.{StreamRuntimePlan}
use gnuradio4_control_plane.Storage
use gnuradio4_control_plane.Runtime.{RuntimeManager, HttpStreamResponse, WebSocketStreamRoute}
use gnuradio4_control_plane.Service.State.{
  World, is_active, runtime_message, phase_for, on_runtime, load_or_throw,
}

-- The comparison of `list`.
unfoldable pub session_before : Session → Session → Bool
session_before left right =
    if nat_eq left.created_at right.created_at
    then text_lt left.id right.id
    else ltb left.created_at right.created_at

unfoldable pub is_transient_http_stream_connect_error : String → Bool
is_transient_http_stream_connect_error text =
    has_value (find? text "failed to reach internal HTTP stream endpoint")

-- `kTransientFetchRetries`.
abbrev pub transient_fetch_retries : ℕ
transient_fetch_retries = 20

-- `catch (…) { throw RuntimeError(runtime_message(action, id, …)); }`.
abbrev pub as_runtime_error : {A : Type 0} → String → String → Result A → Result A
as_runtime_error action id (ok x) = ok x
as_runtime_error action id (err e) = err (runtime_error (runtime_message action id (what e)))

-- Another attempt is made after an exception with the transient message, unless it was the last.
abbrev pub tries_again : ℕ → Option String → Bool
tries_again zero text = false
tries_again (suc n) none = false
tries_again (suc n) (some text) = is_transient_http_stream_connect_error text

module _ {R : Type 0} where
  unfoldable pub list : Exec (World R) (List Session)
  list w = (ok (sort session_before (Storage.list w.repository)), w)

  -- `session.state == Running && phase_for_locked(session) == Running`.
  abbrev pub is_live : World R → Session → Bool
  is_live w session = is_running session.state && is_active (phase_for w.phases session)

  abbrev live_or : Bool → Session → String → Exec (World R) Session
  live_or live session id =
      if live then pure session else throw (invalid_state_error ("session is not running: " <> id))

  -- The first block of `fetch_http_stream` and of `resolve_websocket_stream`.
  unfoldable pub load_live : String → Exec (World R) Session
  unfolding load_or_throw phase_for
  load_live id w = (do session ← load_or_throw id; live_or (is_live w session) session id) w

module _ {P R : Type 0} (manager : RuntimeManager P R) where
  abbrev ask_plan : String → Session → Bool → Exec (World R) (Option StreamRuntimePlan)
  ask_plan id session live w =
      let (result, runtime) = manager.active_stream_plan session w.runtime in
      if live
      then (as_runtime_error "stream lookup" id result, record w { runtime = runtime })
      else (ok none, w)

  unfoldable pub active_stream_plan : String → Exec (World R) (Option StreamRuntimePlan)
  unfolding load_or_throw phase_for
  active_stream_plan id w =
      (do session ← load_or_throw id; ask_plan id session (is_live w session)) w

  -- The loop with `n` attempts left.
  unfoldable pub fetch_attempts : ℕ → String → Session → String → Exec R HttpStreamResponse
  fetch_attempts zero id session stream_id runtime =
      (err (runtime_error (runtime_message "stream fetch" id none)), runtime)
  fetch_attempts (suc n) id session stream_id runtime =
      let (result, next) = manager.fetch_http_stream session stream_id runtime in
      let again = fetch_attempts n id session stream_id next in
      elim result [
        | ok response ↦ (ok response, next)
        | err e ↦
            if tries_again n (what e)
            then again
            else (err (runtime_error (runtime_message "stream fetch" id (what e))), next)
      ]

  unfoldable pub fetch_http_stream : String → String → Exec (World R) HttpStreamResponse
  unfolding load_live
  fetch_http_stream id stream_id = do
    session ← load_live id
    on_runtime (fetch_attempts transient_fetch_retries id session stream_id)

  abbrev route : String → String → Session → Exec R WebSocketStreamRoute
  route id stream_id session runtime =
      let (result, next) = manager.resolve_websocket_stream session stream_id runtime in
      (as_runtime_error "websocket route" id result, next)

  unfoldable pub resolve_websocket_stream : String → String → Exec (World R) WebSocketStreamRoute
  unfolding load_live
  resolve_websocket_stream id stream_id = do
    session ← load_live id
    on_runtime (route id stream_id session)
