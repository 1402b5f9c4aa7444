-- ===== src/Service/Schedule/InFlight.antt =====
-- The invariant of `SessionService` (src/app/session_service.cpp) as its callers see it.
use gnuradio4_control_plane.Prelude.{
  ℕ, ◌≤◌, ◌<◌, true, ap, Bool-cases, String, ◌≡◌, refl, inl, inr, Option, some, List, [], arith,
  find, Option-cases, ◌<>◌,
}
use gnuradio4_control_plane.Errors.{Exception, Result, ok, err, invalid_state_error, runtime_error}
use gnuradio4_control_plane.Domain.Session.{Session, is_running}
use gnuradio4_control_plane.Storage
use gnuradio4_control_plane.Service.State.{World, Phase, starting, stopping, phase_for}
use gnuradio4_control_plane.Service.Operations.{
  start_begin, stop_begin, restart_begin, remove_begin, start_refusal, stop_refusal,
  restart_refusal, remove_refusal,
}
use gnuradio4_control_plane.Service.Schedule.{
  Request, start_request, stop_request, restart_request, remove_request, Call, System, Event, pick,
  begin, end, run,
}
use mathlib.Core.Bool.{false≢true}
use gnuradio4_control_plane.Service.Schedule.Begin.{is_busy}
use gnuradio4_control_plane.Service.Schedule.End.{completed, failure_message, end_ok, end_err}
use gnuradio4_control_plane.Service.Schedule.Exclusion.{Inv, in_flight, holds, owned-pick, run-Inv}
use gnuradio4_control_plane.Service.Schedule.Alone.{alone}

-- The service as it is constructed.
abbrev pub initial : {R : Type 0} → R → System R
initial runtime = alone (record { repository = []; phases = []; runtime = runtime })

pub initial-Inv : {R : Type 0} (runtime : R) → Inv (initial runtime)
unfolding in_flight find
initial-Inv runtime = record { fits = λ id. refl; owned = tt }

-- From the start, under every interleaving of calls and whatever the runtime manager does, at most
-- one lifecycle call is in flight on a session.
pub in_flight-le-one :
    {R : Type 0} (runtime : R) (events : List (Event R)) (id : String)
    → in_flight id (run events (initial runtime)).calls ≤ 1
in_flight-le-one runtime events id =
    let v = run-Inv events (initial runtime) (initial-Inv runtime) in ground (arith, v.fits id)

-- The test that opens a method.
abbrev refusal : Request → String → Session → Phase → Option Exception
refusal start_request id x p = start_refusal id x p
refusal stop_request id x p = stop_refusal id p
refusal restart_request id x p = restart_refusal id p
refusal remove_request id x p = remove_refusal id p

abbrev Refused : Option Exception → Type 0
Refused o = (message : String) × (o ≡ some (invalid_state_error message))

refusal-Refused :
    (request : Request) (id : String) (x : Session) (p : Phase)
    → is_busy p ≡ true
    → Refused (refusal request id x p)
unfolding start_refusal stop_refusal restart_refusal remove_refusal
refusal-Refused start_request id x starting h = elim (Bool-cases (is_running x.state)) [
  | inl b ↦ ("session already running: " <> id, rw b)
  | inr b ↦ ("session start already in progress: " <> id, rw b)
]
refusal-Refused start_request id x stopping h = elim (Bool-cases (is_running x.state)) [
  | inl b ↦ ("session already running: " <> id, rw b)
  | inr b ↦ ("session stop in progress: " <> id, rw b)
]
refusal-Refused stop_request id x starting h = ("session start in progress: " <> id, refl)
refusal-Refused stop_request id x stopping h = ("session stop already in progress: " <> id, refl)
refusal-Refused restart_request id x starting h =
    ("session start already in progress: " <> id, refl)
refusal-Refused restart_request id x stopping h = ("session stop in progress: " <> id, refl)
refusal-Refused remove_request id x starting h = ("session start in progress: " <> id, refl)
refusal-Refused remove_request id x stopping h = ("session stop in progress: " <> id, refl)
refusal-Refused request id x _ h = absurd (false≢true h)

-- A session whose phase is busy, with the phase.
unfoldable pub Busy : {R : Type 0} → System R → String → Type 0
Busy s id =
    (x : Session) × (p : Phase) × (find id s.world.repository ≡ some x)
    × (phase_for s.world.phases x ≡ p)
    × (is_busy p ≡ true)

module _ {R : Type 0} (s : System R) (v : Inv s) where
  pub Busy-in_flight : (id : String) → 0 < in_flight id s.calls → Busy s id
  unfolding phase_for Busy
  Busy-in_flight id h = elim (Option-cases (find id s.world.repository)) [
    | inl e ↦ ground (arith, v.fits id)
    | inr (x, e) ↦ elim (Option-cases (find id s.world.phases)) [
      | inl f ↦ ground (arith, v.fits id)
      | inr (p, f) ↦ (x, p, e, ground (arith, v.fits id), ground (arith, v.fits id))
    ]
  ]

  -- While a call is in flight on a session, every further lifecycle call on it is refused with
  -- `InvalidStateError`, and the refusal changes nothing.
  pub begin-in_flight :
      (request : Request) (id : String)
      → 0 < in_flight id s.calls
      → (message : String) × (begin request id s.world
          ≡ (err (invalid_state_error message), s.world))
  unfolding Busy begin start_begin stop_begin restart_begin remove_begin Storage.get
  begin-in_flight start_request id h =
      let (x, p, stored, recorded, busy) = Busy-in_flight id h in
      let (message, refused) = refusal-Refused start_request id x p busy in (message, ground arith)
  begin-in_flight stop_request id h =
      let (x, p, stored, recorded, busy) = Busy-in_flight id h in
      let (message, refused) = refusal-Refused stop_request id x p busy in (message, ground arith)
  begin-in_flight restart_request id h =
      let (x, p, stored, recorded, busy) = Busy-in_flight id h in
      let (message, refused) = refusal-Refused restart_request id x p busy in
      (message, ground arith)
  begin-in_flight remove_request id h =
      let (x, p, stored, recorded, busy) = Busy-in_flight id h in
      let (message, refused) = refusal-Refused remove_request id x p busy in (message, ground arith)

  -- What the caller of a call in flight gets in the end: the session as it is now stored, or the
  -- runtime's failure. The session cannot have gone missing meanwhile.
  abbrev pub Answers : Call → ℕ → Result (Unit {0}) → Result (Option Session) → Type 0
  Answers c now (ok done) answer =
      (x : Session) × (find c.id s.world.repository ≡ some x)
      × (answer ≡ ok (completed c.request x now))
  Answers c now (err e) answer = answer ≡ err (runtime_error (failure_message c.request c.id e))

  pub end-Answers :
      (n now : ℕ) (c : Call) (others : List Call) (r : Result (Unit {0}))
      → pick n s.calls ≡ some (c, others)
      → Answers c now r (end c.request c.id c.session r now s.world).0
  end-Answers n now c others (ok done) picked =
      let (x, stored, keyed, alone_now) = holds s v n now c others (ok done) picked in
      (
        x,
        stored,
        ap (λ (a : Result (Option Session) × World R). a.0)
            (end_ok c.id c.session x now s.world (owned-pick n s.calls others c picked v.owned).0
              stored keyed c.request done),
      )
  end-Answers n now c others (err e) picked =
      let (x, stored, keyed, alone_now) = holds s v n now c others (err e) picked in
      ap (λ (a : Result (Option Session) × World R). a.0)
        (end_err c.id c.session x now s.world (owned-pick n s.calls others c picked v.owned).0
          stored keyed c.request e)
