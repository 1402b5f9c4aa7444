-- ===== src/Service/Refinement.antt =====
-- `SessionService` against a specification that knows no phases and no blocks: a map from ids to
-- sessions, and the runtime manager.
use gnuradio4_control_plane.Prelude.{
  ℕ, String, ◌≡◌, refl, true, false, inl, inr, Option, none, some, arith, find, insert, find-insert,
  find-erase, if◌then◌else◌, ◌==◌, ◌<>◌, Option-cases, Bool-cases,
}
use gnuradio4_control_plane.Errors.{Result, ok, err, invalid_state_error, runtime_error}
use gnuradio4_control_plane.Domain.Session.{Session, is_running, is_stopped}
use gnuradio4_control_plane.Runtime.{RuntimeManager}
use gnuradio4_control_plane.Service.State.{World, Phase}
use gnuradio4_control_plane.Storage
use gnuradio4_control_plane.Service.Operations.{
  Begun, returned, reserved, start_begin, stop_begin, restart_begin, remove_begin,
}
use gnuradio4_control_plane.Service.Schedule.{
  Request, start_request, stop_request, restart_request, remove_request, begin, end,
}
use gnuradio4_control_plane.Service.Schedule.Begin.{is_busy, not_found, phase_of_request}
use gnuradio4_control_plane.Service.Schedule.End.{
  completed, broken, failure_message, end_ok, end_err, agrees,
}
use gnuradio4_control_plane.Service.Schedule.Exclusion.{Inv, Fits, in_flight, busy_count}
use gnuradio4_control_plane.Service.Schedule.Alone.{
  alone, perform, calls_of, proceed, perform-begin,
}

pub record View (R : Type 0) : Type 0 where
  pub sessions : String → Option Session
  pub runtime : R

-- The answers that need no call of the runtime manager.
abbrev pub immediate : Request → String → Session → Option (Result (Option Session))
immediate start_request id x =
    if is_running x.state
    then some (err (invalid_state_error ("session already running: " <> id)))
    else none
immediate stop_request id x = if is_stopped x.state then some (ok (some x)) else none
immediate restart_request id x = none
immediate remove_request id x = none

abbrev pub assign : String → Option Session → (String → Option Session) → String → Option Session
assign id y sessions j = if id == j then y else sessions j

-- The first block on a session that no call is working on.
abbrev decided :
    {R : Type 0}
    → Request
    → String
    → Session
    → World R
    → Option (Result (Option Session))
    → Result Begun × World R
decided request id x w (some (err e)) = (err e, w)
decided request id x w (some (ok y)) = (ok (returned x), w)
decided request id x w none =
    (ok (reserved x), record w { phases = insert id (phase_of_request request) w.phases })

module _ {R : Type 0} (id : String) (x : Session) (p : Phase) (w : World R)
    (stored : find id w.repository ≡ some x) (recorded : find id w.phases ≡ some p)
    (keyed : x.id ≡ id) (free : is_busy p ≡ false) (agree : agrees p x.state ≡ true) where
  begin_settled :
      (request : Request) → begin request id w ≡ decided request id x w (immediate request id x)
  unfolding begin start_begin stop_begin restart_begin remove_begin Storage.get
  begin_settled start_request = ground arith
  begin_settled stop_request = ground arith
  begin_settled restart_request = ground arith
  begin_settled remove_request = ground arith

begin_missing :
    {R : Type 0} (id : String) (w : World R)
    → find id w.repository ≡ none
    → (request : Request) → begin request id w ≡ (err (not_found id), w)
unfolding begin start_begin stop_begin restart_begin remove_begin Storage.get
begin_missing id w e start_request = ground arith
begin_missing id w e stop_request = ground arith
begin_missing id w e restart_request = ground arith
begin_missing id w e remove_request = ground arith

free_phase : (p : Phase) → 0 ≡ busy_count p → is_busy p ≡ false
free_phase p h = ground arith

fit_of :
    {R : Type 0} (id : String) (x : Session) (w : World R)
    → Inv (alone w)
    → find id w.repository ≡ some x
    → Fits id (some x) (find id w.phases) 0
unfolding in_flight
fit_of id x w v e = rw e at (v.fits id)

module _ {P R : Type 0} (manager : RuntimeManager P R) where
  abbrev outcome :
      Request
      → String
      → ℕ
      → Session
      → (String → Option Session)
      → Result (Unit {0})
      → R
      → Result (Option Session) × View R
  outcome request id now x sessions (ok done) runtime = (
    ok (completed request x now),
    record { sessions = assign id (completed request x now) sessions; runtime = runtime },
  )
  outcome request id now x sessions (err e) runtime = (
    err (runtime_error (failure_message request id e)),
    record { sessions = assign id (some (broken request id x e now)) sessions; runtime = runtime },
  )

  abbrev answer :
      Request
      → String
      → ℕ
      → View R
      → Session
      → Option (Result (Option Session))
      → Result (Option Session) × View R
  answer request id now v x (some r) = (r, v)
  answer request id now v x none =
      outcome request id now x v.sessions (calls_of manager request x v.runtime).0
        (calls_of manager request x v.runtime).1

  abbrev respond : Request → String → ℕ → View R → Option Session → Result (Option Session) × View R
  respond request id now v none = (err (not_found id), v)
  respond request id now v (some x) = answer request id now v x (immediate request id x)

  -- The specification of the four lifecycle methods.
  abbrev pub specified : Request → String → ℕ → View R → Result (Option Session) × View R
  specified request id now v = respond request id now v (v.sessions id)

  abbrev pub view : World R → View R
  view w = record { sessions = λ j. find j w.repository; runtime = w.runtime }

  -- The same answer, and states that hold the same sessions.
  abbrev pub Matches : Result (Option Session) × World R → Result (Option Session) × View R → Type 0
  Matches a b =
      (a.0 ≡ b.0)
      × ((j : String) → find j a.1.repository ≡ b.1.sessions j)
      × (a.1.runtime ≡ b.1.runtime)

  -- The state in which the last block starts.
  abbrev between : Request → String → World R → R → World R
  between request id w runtime = record w {
    phases = insert id (phase_of_request request) w.phases;
    runtime = runtime;
  }

  perform-reserved :
      (request : Request) (id : String) (now : ℕ) (x : Session) (w : World R)
      (stored : find id w.repository ≡ some x) (keyed : x.id ≡ id) (result : Result (Unit {0}))
      (runtime : R)
      → Matches
          (end request id x result now (between request id w runtime))
          (outcome request id now x (λ j. find j w.repository) result runtime)
  perform-reserved start_request id now x w stored keyed (ok done) runtime =
      rw
        (end_ok id x x now (between start_request id w runtime) keyed stored keyed start_request
          done)
        (refl, (λ j. find-insert _ _ _ _), refl)
  perform-reserved stop_request id now x w stored keyed (ok done) runtime =
      rw
        (end_ok id x x now (between stop_request id w runtime) keyed stored keyed stop_request done)
        (refl, (λ j. find-insert _ _ _ _), refl)
  perform-reserved restart_request id now x w stored keyed (ok done) runtime =
      rw
        (end_ok id x x now (between restart_request id w runtime) keyed stored keyed restart_request
          done)
        (refl, (λ j. find-insert _ _ _ _), refl)
  perform-reserved remove_request id now x w stored keyed (ok done) runtime =
      rw
        (end_ok id x x now (between remove_request id w runtime) keyed stored keyed remove_request
          done)
        (refl, (λ j. find-erase _ _ _), refl)
  perform-reserved request id now x w stored keyed (err e) runtime =
      rw (end_err id x x now (between request id w runtime) keyed stored keyed request e)
        (refl, (λ j. find-insert _ _ _ _), refl)

  answered :
      (request : Request) (id : String) (now : ℕ) (x : Session) (w : World R)
      → find id w.repository ≡ some x
      → x.id ≡ id
      → Matches
          (proceed manager request id now
            (decided request id x w (immediate request id x)).0
            (decided request id x w (immediate request id x)).1)
          (answer request id now (view w) x (immediate request id x))
  answered start_request id now x w stored keyed = elim (Bool-cases (is_running x.state)) [
    | inl b ↦ rw b (refl, (λ j. refl), refl)
    | inr b ↦ rw b (perform-reserved start_request id now x w stored keyed _ _)
  ]
  answered stop_request id now x w stored keyed = elim (Bool-cases (is_stopped x.state)) [
    | inl b ↦ rw b (refl, (λ j. refl), refl)
    | inr b ↦ rw b (perform-reserved stop_request id now x w stored keyed _ _)
  ]
  answered restart_request id now x w stored keyed =
      perform-reserved restart_request id now x w stored keyed _ _
  answered remove_request id now x w stored keyed =
      perform-reserved remove_request id now x w stored keyed _ _

  on_stored :
      (request : Request) (id : String) (now : ℕ) (x : Session) (p : Option Phase) (w : World R)
      → find id w.repository ≡ some x
      → find id w.phases ≡ p
      → Fits id (some x) p 0
      → Matches (perform manager request id now w) (specified request id now (view w))
  on_stored request id now x none w stored recorded fit = absurd fit
  on_stored request id now x (some p) w stored recorded (keyed, free, agree) =
      rw
        (
          perform-begin manager request id now w,
          begin_settled id x p w stored recorded keyed (free_phase p free) agree request,
          stored,
        )
        (answered request id now x w stored keyed)

  -- From a state where no call is in flight, each lifecycle method answers as specified, whatever
  -- the runtime manager does, and leaves the specified sessions and runtime state.
  pub perform-specified :
      (request : Request) (id : String) (now : ℕ) (w : World R)
      → Inv (alone w)
      → Matches (perform manager request id now w) (specified request id now (view w))
  perform-specified request id now w v = elim (Option-cases (find id w.repository)) [
    | inl e ↦
        rw (perform-begin manager request id now w, begin_missing id w e request, e)
          (refl, (λ j. refl), refl)
    | inr (x, e) ↦ on_stored request id now x _ w e refl (fit_of id x w v e)
  ]
