-- ===== src/Service/Schedule/Begin.antt =====
-- The first blocks of the methods of src/app/session_service.cpp, by cases.
use gnuradio4_control_plane.Prelude.{
  String, ◌≡◌, Bool, true, false, ◌⊎◌, inl, inr, none, some, List, ◌∷◌, arith, find, insert,
  Option-cases, Bool-cases, ◌&&◌, ◌<>◌,
}
use gnuradio4_control_plane.Errors.{Exception, ok, err, not_found_error}
use gnuradio4_control_plane.Domain.Session.{Session, is_stopped}
use gnuradio4_control_plane.Storage
use gnuradio4_control_plane.Service.State.{Phase, starting, stopping, is_idle, World, phase_for}
use gnuradio4_control_plane.Service.Operations.{
  returned, reserved, start_refusal, stop_refusal, restart_refusal, remove_refusal, start_begin,
  stop_begin, restart_begin, remove_begin,
}
use gnuradio4_control_plane.Service.Schedule.{
  Request, start_request, stop_request, restart_request, remove_request, Call, System, begin, admit,
}

-- A phase that marks a call in flight.
abbrev pub is_busy : Phase → Bool
is_busy starting = true
is_busy stopping = true
is_busy _ = false

abbrev pub not_found : String → Exception
not_found id = not_found_error ("session not found: " <> id)

abbrev pub phase_of_request : Request → Phase
phase_of_request start_request = starting
phase_of_request stop_request = stopping
phase_of_request restart_request = starting
phase_of_request remove_request = stopping

module _ {R : Type 0} (id : String) (w : World R) where
  -- The session is reserved for the request.
  abbrev Reserves : Request → Type 0
  Reserves request =
      (x : Session) × (find id w.repository ≡ some x)
      × (is_busy (phase_for w.phases x) ≡ false)
      × (begin request id w
          ≡ (ok (reserved x), record w { phases = insert id (phase_of_request request) w.phases }))

  -- The method is over, and nothing has changed.
  abbrev Declines : Request → Type 0
  Declines request =
      ((e : Exception) × (begin request id w ≡ (err e, w)))
      ⊎ ((x : Session) × (find id w.repository ≡ some x)
          × (is_busy (phase_for w.phases x) ≡ false)
          × (begin request id w ≡ (ok (returned x), w)))

  pub begin_result : (request : Request) → Reserves request ⊎ Declines request
  unfolding begin start_begin stop_begin restart_begin remove_begin Storage.get
  begin_result start_request = elim (Option-cases (find id w.repository)) [
    | inl e ↦ inr (inl (not_found id, ground arith))
    | inr (x, e) ↦ elim (Option-cases (start_refusal id x (phase_for w.phases x))) [
      | inl r ↦ inl (x, e, ground arith, ground arith)
      | inr (r, f) ↦ inr (inl (r, ground arith))
    ]
  ]
  begin_result stop_request = elim (Option-cases (find id w.repository)) [
    | inl e ↦ inr (inl (not_found id, ground arith))
    | inr (x, e) ↦ elim (Option-cases (stop_refusal id (phase_for w.phases x))) [
      | inl r ↦ elim (Bool-cases (is_stopped x.state && is_idle (phase_for w.phases x))) [
        | inl i ↦ inr (inr (x, e, ground arith, ground arith))
        | inr i ↦ inl (x, e, ground arith, ground arith)
      ]
      | inr (r, f) ↦ inr (inl (r, ground arith))
    ]
  ]
  begin_result restart_request = elim (Option-cases (find id w.repository)) [
    | inl e ↦ inr (inl (not_found id, ground arith))
    | inr (x, e) ↦ elim (Option-cases (restart_refusal id (phase_for w.phases x))) [
      | inl r ↦ inl (x, e, ground arith, ground arith)
      | inr (r, f) ↦ inr (inl (r, ground arith))
    ]
  ]
  begin_result remove_request = elim (Option-cases (find id w.repository)) [
    | inl e ↦ inr (inl (not_found id, ground arith))
    | inr (x, e) ↦ elim (Option-cases (remove_refusal id (phase_for w.phases x))) [
      | inl r ↦ inl (x, e, ground arith, ground arith)
      | inr (r, f) ↦ inr (inl (r, ground arith))
    ]
  ]

module _ {R : Type 0} (id : String) (w : World R) (calls : List Call) where
  abbrev pub begun : Request → System R
  begun request = admit request id calls (begin request id w).0 (begin request id w).1

  abbrev pub taken : Request → Session → System R
  taken request x = record {
    world = record w { phases = insert id (phase_of_request request) w.phases };
    calls = record { request = request; id = id; session = x; result = none } ∷ calls;
  }

  -- The two ways in which the first block leaves the system.
  pub begin_cases :
      (request : Request)
      → ((x : Session) × (find id w.repository ≡ some x)
          × (is_busy (phase_for w.phases x) ≡ false)
          × (begun request ≡ taken request x))
        ⊎ (begun request ≡ record { world = w; calls = calls })
  begin_cases request = elim (begin_result id w request) [
    | inl (x, stored, free, e) ↦ inl (x, stored, free, rw e)
    | inr (inl (e, h)) ↦ inr (rw h)
    | inr (inr (x, stored, free, h)) ↦ inr (rw h)
  ]
