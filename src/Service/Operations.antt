-- ===== src/Service/Operations.antt =====
-- The session operations of src/app/session_service.cpp. A block under `lock_guard` is one
-- definition (`…_begin`, `…_end`); between the two blocks of a method the runtime manager is called
-- with the lock released. The readings of the clock are arguments.
use gnuradio4_control_plane.Prelude.{ℕ, String, ◌&&◌, ◌||◌, Option, none, some, if◌then◌else◌, ◌<>◌}
use gnuradio4_control_plane.Errors.{
  Exec, Exception, Result, ok, err, pure, throw, ◌>>=◌, ◌>>◌, not_found_error, invalid_state_error,
  what,
}
use gnuradio4_control_plane.Domain.Session.{Session, stopped, running, is_running, is_stopped}
use gnuradio4_control_plane.Storage
use gnuradio4_control_plane.Runtime.{RuntimeManager}
use gnuradio4_control_plane.Service.State.{
  Phase, idle, starting, active, stopping, is_idle, is_starting, is_active, is_stopping, World,
  runtime_message, phase_for, on_repository, load_or_throw, set_phase, erase_phase, store_session,
  record_runtime_failure,
}

-- The tests that open a method: the exception that is thrown, if any.
unfoldable pub start_refusal : String → Session → Phase → Option Exception
start_refusal id session phase =
    if is_running session.state || is_active phase
    then some (invalid_state_error ("session already running: " <> id))
    else if is_starting phase
    then some (invalid_state_error ("session start already in progress: " <> id))
    else if is_stopping phase
    then some (invalid_state_error ("session stop in progress: " <> id))
    else none

unfoldable pub stop_refusal : String → Phase → Option Exception
stop_refusal id phase =
    if is_stopping phase
    then some (invalid_state_error ("session stop already in progress: " <> id))
    else if is_starting phase
    then some (invalid_state_error ("session start in progress: " <> id))
    else none

unfoldable pub restart_refusal : String → Phase → Option Exception
restart_refusal id phase =
    if is_stopping phase
    then some (invalid_state_error ("session stop in progress: " <> id))
    else if is_starting phase
    then some (invalid_state_error ("session start already in progress: " <> id))
    else none

unfoldable pub remove_refusal : String → Phase → Option Exception
remove_refusal id phase =
    if is_stopping phase
    then some (invalid_state_error ("session stop in progress: " <> id))
    else if is_starting phase
    then some (invalid_state_error ("session start in progress: " <> id))
    else none

-- What the first block of `stop` leaves: the session to return at once, or to stop.
pub data Begun : Type 0 where
  returned reserved : Session → Begun

module _ {R : Type 0} where
  abbrev unless : Option Exception → Exec (World R) (Unit {0})
  unless none = pure tt
  unless (some e) = throw e

  unfoldable pub get : String → Exec (World R) Session
  unfolding load_or_throw
  get id = load_or_throw id

  unfoldable pub start_begin : String → Exec (World R) Session
  unfolding load_or_throw phase_for start_refusal set_phase
  start_begin id w =
      (do
        session ← load_or_throw id
        unless (start_refusal id session (phase_for w.phases session))
        set_phase id starting
        pure session)
        w

  unfoldable pub stop_begin : String → Exec (World R) Begun
  unfolding load_or_throw phase_for stop_refusal set_phase
  stop_begin id w =
      (do
        session ← load_or_throw id
        unless (stop_refusal id (phase_for w.phases session))
        if is_stopped session.state && is_idle (phase_for w.phases session)
            then pure (returned session)
            else (do set_phase id stopping; pure (reserved session)))
        w

  unfoldable pub restart_begin : String → Exec (World R) Session
  unfolding load_or_throw phase_for restart_refusal set_phase
  restart_begin id w =
      (do
        session ← load_or_throw id
        unless (restart_refusal id (phase_for w.phases session))
        set_phase id starting
        pure session)
        w

  unfoldable pub remove_begin : String → Exec (World R) Session
  unfolding load_or_throw phase_for remove_refusal set_phase
  remove_begin id w =
      (do
        session ← load_or_throw id
        unless (remove_refusal id (phase_for w.phases session))
        set_phase id stopping
        pure session)
        w

  -- The last block of `start` and of `restart`.
  unfoldable pub running_end : String → ℕ → Exec (World R) Session
  unfolding load_or_throw store_session
  running_end id now = do
    session ← load_or_throw id
    let started = record session { state = running; last_error = none; updated_at = now }
    store_session started active
    pure started

  unfoldable pub stopped_end : String → ℕ → Exec (World R) Session
  unfolding load_or_throw store_session
  stopped_end id now = do
    session ← load_or_throw id
    let halted = record session { state = stopped; last_error = none; updated_at = now }
    store_session halted idle
    pure halted

  unfoldable pub remove_end : String → Exec (World R) (Unit {0})
  unfolding erase_phase
  remove_end id = do
    removed ← on_repository (Storage.remove id)
    if removed then erase_phase id else throw (not_found_error ("session not found: " <> id))

  -- The handlers `catch (const std::exception&)` and `catch (...)`.
  unfoldable pub or_record_failure :
      String → String → Session → ℕ → Result (Unit {0}) → Exec (World R) (Unit {0})
  unfolding record_runtime_failure what runtime_message
  or_record_failure action id session now (ok done) = pure tt
  or_record_failure action id session now (err e) =
      record_runtime_failure session (runtime_message action id (what e)) now

  -- `try { calls } catch …`: the runtime's state stays as the calls left it.
  unfoldable pub attempt :
      String → String → Session → ℕ → Exec R (Unit {0}) → Exec (World R) (Unit {0})
  attempt action id session now calls w =
      or_record_failure action id session now (calls w.runtime).0
        (record w { runtime = (calls w.runtime).1 })

module _ {P R : Type 0} (manager : RuntimeManager P R) where
  unfoldable pub start_calls : Session → Exec R (Unit {0})
  start_calls session = do manager.prepare session; manager.start session

  -- A running session is stopped, and passed on as stopped.
  unfoldable pub stop_if_running : Session → Exec R Session
  stop_if_running session =
      if is_running session.state
      then (do manager.stop session; pure (record session { state = stopped }))
      else pure session

  unfoldable pub restart_calls : Session → Exec R (Unit {0})
  unfolding stop_if_running
  restart_calls session = do
    current ← stop_if_running session
    manager.destroy current
    manager.prepare current
    manager.start current

  unfoldable pub remove_calls : Session → Exec R (Unit {0})
  unfolding stop_if_running
  remove_calls session = do current ← stop_if_running session; manager.destroy current

  unfoldable pub start : String → ℕ → Exec (World R) Session
  start id now = do
    session ← start_begin id
    attempt "start" id session now (start_calls session)
    running_end id now

  unfoldable pub stop_reserved : String → ℕ → Begun → Exec (World R) Session
  stop_reserved id now (returned session) = pure session
  stop_reserved id now (reserved session) = do
    attempt "stop" id session now (manager.stop session)
    stopped_end id now

  unfoldable pub stop : String → ℕ → Exec (World R) Session
  unfolding stop_reserved
  stop id now = do begun ← stop_begin id; stop_reserved id now begun

  unfoldable pub restart : String → ℕ → Exec (World R) Session
  restart id now = do
    session ← restart_begin id
    attempt "restart" id session now (restart_calls session)
    running_end id now

  unfoldable pub remove : String → ℕ → Exec (World R) (Unit {0})
  remove id now = do
    session ← remove_begin id
    attempt "remove" id session now (remove_calls session)
    remove_end id
