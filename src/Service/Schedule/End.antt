-- ===== src/Service/Schedule/End.antt =====
-- The handlers and last blocks of the methods of src/app/session_service.cpp, by cases.
use gnuradio4_control_plane.Prelude.{
  ℕ, String, ◌≡◌, refl, Bool, true, false, ◌⊎◌, inl, inr, Option, none, some, arith, find, insert,
  erase,
}
use gnuradio4_control_plane.Errors.{Exception, Result, ok, err, what, runtime_error}
use gnuradio4_control_plane.Domain.Session.{Session, SessionState, stopped, running, error}
use gnuradio4_control_plane.Storage
use gnuradio4_control_plane.Service.State.{
  Phase, idle, starting, active, stopping, failed, World, runtime_message,
}
use gnuradio4_control_plane.Service.Operations.{
  or_record_failure, running_end, stopped_end, remove_end,
}
use gnuradio4_control_plane.Service.Schedule.{
  Request, start_request, stop_request, restart_request, remove_request, end, last_block, action,
}
use gnuradio4_control_plane.Service.Schedule.Begin.{is_busy}

-- A recorded phase that is not busy says what the session's state says.
abbrev pub agrees : Phase → SessionState → Bool
agrees idle stopped = true
agrees active running = true
agrees failed error = true
agrees starting _ = true
agrees stopping _ = true
agrees _ _ = false

module _ {R : Type 0} where
  abbrev pub settled : World R → String → Session → Phase → World R
  settled w id y p = record w {
    repository = insert id y w.repository;
    phases = insert id p w.phases;
  }

  abbrev pub cleared : World R → String → World R
  cleared w id = record w { repository = erase id w.repository; phases = erase id w.phases }

  abbrev pub Settles : World R → String → World R → Type 0
  Settles w id w' =
      (y : Session) × (p : Phase) × (w' ≡ settled w id y p)
      × (y.id ≡ id)
      × (is_busy p ≡ false)
      × (agrees p y.state ≡ true)

  abbrev pub Ends : World R → String → World R → Type 0
  Ends w id w' = Settles w id w' ⊎ (w' ≡ cleared w id)

-- The session as the last block stores it; `none` when it is removed.
abbrev pub completed : Request → Session → ℕ → Option Session
completed start_request x now =
    some (record x { state = running; last_error = none; updated_at = now })
completed stop_request x now =
    some (record x { state = stopped; last_error = none; updated_at = now })
completed restart_request x now =
    some (record x { state = running; last_error = none; updated_at = now })
completed remove_request x now = none

abbrev pub failure_message : Request → String → Exception → String
failure_message request id e = runtime_message (action request) id (what e)

abbrev pub broken : Request → String → Session → Exception → ℕ → Session
broken request id x e now = record x {
  state = error;
  last_error = some (failure_message request id e);
  updated_at = now;
}

abbrev final_phase : Request → Phase
final_phase start_request = active
final_phase stop_request = idle
final_phase restart_request = active
final_phase remove_request = idle

module _ {R : Type 0} (id : String) (session x : Session) (now : ℕ) (w : World R)
    (own : session.id ≡ id) (stored : find id w.repository ≡ some x) (keyed : x.id ≡ id) where
  abbrev stored_or_cleared : Phase → Option Session → World R
  stored_or_cleared p (some y) = settled w id y p
  stored_or_cleared p none = cleared w id

  pub end_err :
      (request : Request) (e : Exception)
      → end request id session (err e) now w ≡ (
        err (runtime_error (failure_message request id e)),
        settled w id (broken request id x e now) failed,
      )
  unfolding end or_record_failure Storage.get Storage.update
  end_err request e = ground arith

  pub end_ok :
      (request : Request) (done : Unit {0})
      → end request id session (ok done) now w ≡ (
        ok (completed request x now),
        stored_or_cleared (final_phase request) (completed request x now),
      )
  unfolding end or_record_failure last_block running_end stopped_end remove_end Storage.get
      Storage.update Storage.remove
  end_ok start_request done = ground arith
  end_ok stop_request done = ground arith
  end_ok restart_request done = ground arith
  end_ok remove_request done = ground arith

  pub end_cases :
      (request : Request) (result : Result (Unit {0}))
      → Ends w id (end request id session result now w).1
  end_cases request (err e) =
      inl (broken request id x e now, failed, rw (end_err request e) refl, keyed, refl, refl)
  end_cases start_request (ok done) = inl (
    record x { state = running; last_error = none; updated_at = now },
    active,
    rw (end_ok start_request done) refl,
    keyed,
    refl,
    refl,
  )
  end_cases stop_request (ok done) = inl (
    record x { state = stopped; last_error = none; updated_at = now },
    idle,
    rw (end_ok stop_request done) refl,
    keyed,
    refl,
    refl,
  )
  end_cases restart_request (ok done) = inl (
    record x { state = running; last_error = none; updated_at = now },
    active,
    rw (end_ok restart_request done) refl,
    keyed,
    refl,
    refl,
  )
  end_cases remove_request (ok done) = inr (rw (end_ok remove_request done) refl)
