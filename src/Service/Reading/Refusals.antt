-- ===== src/Service/Reading/Refusals.antt =====
-- The stream methods of src/app/session_service.cpp on a session that a lifecycle call is working
-- on, and the exceptions that they throw.
use gnuradio4_control_plane.Prelude.{
  ℕ, zero, suc, ◌<◌, String, ◌≡◌, refl, true, false, ◌⊎◌, inl, inr, none, arith, find, Bool-cases,
  Option-cases, ◌<>◌,
}
use gnuradio4_control_plane.Errors.{
  Result, ok, err, what, Result-cases, runtime_error, invalid_state_error,
}
use gnuradio4_control_plane.Domain.Session.{Session}
use gnuradio4_control_plane.Storage
use gnuradio4_control_plane.Runtime.{RuntimeManager}
use gnuradio4_control_plane.Service.State.{World, Phase, is_active}
use gnuradio4_control_plane.Service.Schedule.{System}
use gnuradio4_control_plane.Service.Schedule.Begin.{is_busy, not_found}
use gnuradio4_control_plane.Service.Schedule.Exclusion.{Inv, in_flight}
use gnuradio4_control_plane.Service.Schedule.InFlight.{Busy, Busy-in_flight}
use gnuradio4_control_plane.Service.Reading.{
  is_live, load_live, tries_again, fetch_attempts, active_stream_plan, fetch_http_stream,
  resolve_websocket_stream, transient_fetch_retries,
}

busy_inactive : (p : Phase) → is_busy p ≡ true → is_active p ≡ false
busy_inactive p h = ground arith

module _ {P R : Type 0} (manager : RuntimeManager P R) (s : System R) (v : Inv s) where
  -- While a call is in flight on a session, its streams are not there: the plan is empty and the
  -- other two methods throw `InvalidStateError`, the runtime manager is not asked, and nothing
  -- changes.
  pub streams_in_flight :
      (id stream_id : String)
      → 0 < in_flight id s.calls
      → (active_stream_plan manager id s.world ≡ (ok none, s.world))
        × (fetch_http_stream manager id stream_id s.world
            ≡ (err (invalid_state_error ("session is not running: " <> id)), s.world))
        × (resolve_websocket_stream manager id stream_id s.world
            ≡ (err (invalid_state_error ("session is not running: " <> id)), s.world))
  unfolding Busy active_stream_plan fetch_http_stream resolve_websocket_stream load_live Storage.get
  streams_in_flight id stream_id h =
      let (x, p, stored, recorded, busy) = Busy-in_flight s v id h in
      let inactive = busy_inactive p busy in
      let dead : is_live s.world x ≡ false = ground arith in
      (rw (stored, dead) refl, rw (stored, dead) refl, rw (stored, dead) refl)

-- What the three methods throw.
abbrev pub Throws : String → {A : Type 0} → Result A → Type 0
Throws id (ok x) = Unit
Throws id (err e) =
    (e ≡ not_found id)
    ⊎ ((e ≡ invalid_state_error ("session is not running: " <> id))
        ⊎ ((message : String) × (e ≡ runtime_error message)))

module _ {P R : Type 0} (manager : RuntimeManager P R) where
  fetch_attempts-Throws :
      (n : ℕ) (id : String) (session : Session) (stream_id : String) (runtime : R)
      → Throws id (fetch_attempts manager n id session stream_id runtime).0
  unfolding fetch_attempts
  fetch_attempts-Throws zero id session stream_id runtime = inr (inr (_, refl))
  fetch_attempts-Throws (suc n) id session stream_id runtime =
      elim (Result-cases (manager.fetch_http_stream session stream_id runtime).0) [
        | inl (response, f) ↦ rw (f, fetch_attempts) tt
        | inr (e, f) ↦ elim (Bool-cases (tries_again n (what e))) [
          | inl g ↦
              rw (f, fetch_attempts, g)
                (fetch_attempts-Throws n id session stream_id
                  (manager.fetch_http_stream session stream_id runtime).1)
          | inr g ↦ rw (f, fetch_attempts, g) (inr (inr (_, refl)))
        ]
      ]

  -- Whatever the runtime manager throws, `fetch_http_stream` throws `NotFoundError`,
  -- `InvalidStateError` or `RuntimeError`.
  pub fetch_http_stream-Throws :
      (id stream_id : String) (w : World R) → Throws id (fetch_http_stream manager id stream_id w).0
  unfolding fetch_http_stream load_live Storage.get
  fetch_http_stream-Throws id stream_id w = elim (Option-cases (find id w.repository)) [
    | inl e ↦ rw e (inl refl)
    | inr (x, e) ↦ elim (Bool-cases (is_live w x)) [
      | inl b ↦ rw (e, b) (fetch_attempts-Throws transient_fetch_retries id x stream_id w.runtime)
      | inr b ↦ rw (e, b) (inr (inl refl))
    ]
  ]
