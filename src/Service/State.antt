-- ===== src/Service/State.antt =====
-- The state of `SessionService` and its private helpers (src/app/session_service.cpp). The service
-- holds a repository and a runtime manager by reference, so its methods act on the three states
-- together.
use gnuradio4_control_plane.Prelude.{
  ℕ, String, Bool, true, false, Option, none, some, ◌<>◌, Assoc, find, insert, erase,
}
use gnuradio4_control_plane.Errors.{
  Exec, Result, ok, err, throw, ◌>>=◌, ◌>>◌, not_found_error, runtime_error,
}
use gnuradio4_control_plane.Domain.Session.{Session, SessionState, stopped, running, error}
use gnuradio4_control_plane.Storage
use gnuradio4_control_plane.Storage.{Repository}

-- `InternalLifecyclePhase`.
pub data Phase : Type 0 where
  idle starting active stopping failed : Phase

abbrev pub is_idle : Phase → Bool
is_idle idle = true
is_idle _ = false

abbrev pub is_starting : Phase → Bool
is_starting starting = true
is_starting _ = false

abbrev pub is_active : Phase → Bool
is_active active = true
is_active _ = false

abbrev pub is_stopping : Phase → Bool
is_stopping stopping = true
is_stopping _ = false

-- The service's own state `phases_`, beside the repository and the runtime manager's state.
pub record World (R : Type 0) : Type 0 where
  pub repository : Repository
  pub phases : Assoc Phase
  pub runtime : R

-- `runtime_message`, with and without the exception's text.
unfoldable pub runtime_message : String → String → Option String → String
runtime_message action id none = "runtime " <> action <> " failed for session " <> id
runtime_message action id (some text) =
    "runtime " <> action <> " failed for session " <> id <> ": " <> text

abbrev pub phase_of_state : SessionState → Phase
phase_of_state stopped = idle
phase_of_state running = active
phase_of_state error = failed

abbrev known_or : Option Phase → SessionState → Phase
known_or (some phase) state = phase
known_or none state = phase_of_state state

-- `phase_for_locked`: the recorded phase, or the one that the session's state stands for.
unfoldable pub phase_for : Assoc Phase → Session → Phase
phase_for phases session = known_or (find session.id phases) session.state

abbrev found_or : Option Session → String → Result Session
found_or (some session) id = ok session
found_or none id = err (not_found_error ("session not found: " <> id))

module _ {R : Type 0} where
  abbrev pub on_repository : {A : Type 0} → Exec Repository A → Exec (World R) A
  on_repository m w = ((m w.repository).0, record w { repository = (m w.repository).1 })

  abbrev pub on_runtime : {A : Type 0} → Exec R A → Exec (World R) A
  on_runtime m w = ((m w.runtime).0, record w { runtime = (m w.runtime).1 })

  unfoldable pub load_or_throw : String → Exec (World R) Session
  load_or_throw id w = (found_or (Storage.get id w.repository) id, w)

  -- `phases_[id] = phase`.
  unfoldable pub set_phase : String → Phase → Exec (World R) (Unit {0})
  set_phase id phase w = (ok tt, record w { phases = insert id phase w.phases })

  unfoldable pub erase_phase : String → Exec (World R) (Unit {0})
  erase_phase id w = (ok tt, record w { phases = erase id w.phases })

  unfoldable pub store_session : Session → Phase → Exec (World R) (Unit {0})
  unfolding set_phase
  store_session session phase = do
    on_repository (Storage.update session)
    set_phase session.id phase

  -- The session is loaded again, stored as failed, and the message is thrown.
  unfoldable pub record_runtime_failure : {A : Type 0} → Session → String → ℕ → Exec (World R) A
  unfolding load_or_throw store_session
  record_runtime_failure session message now = do
    current ← load_or_throw session.id
    store_session (record current { state = error; last_error = some message; updated_at = now })
        failed
    throw (runtime_error message)
