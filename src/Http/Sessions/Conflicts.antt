-- ===== src/Http/Sessions/Conflicts.antt =====
-- The answers of the lifecycle routes, by what the session service does.
use gnuradio4_control_plane.Prelude.{
  ℕ, ◌<◌, String, ◌≡◌, refl, ap, ◌∙◌, inl, inr, Option, none, some,
}
use gnuradio4_control_plane.Errors.{Result, ok, err, Result-cases}
use gnuradio4_control_plane.Domain.Session.{Session}
use gnuradio4_control_plane.Runtime.{RuntimeManager}
use gnuradio4_control_plane.Service.State.{World}
use gnuradio4_control_plane.Service.Operations
use gnuradio4_control_plane.Service.Schedule.{
  Request, start_request, stop_request, restart_request, remove_request, System,
}
use gnuradio4_control_plane.Service.Schedule.Exclusion.{Inv, in_flight}
use gnuradio4_control_plane.Service.Schedule.InFlight.{begin-in_flight}
use gnuradio4_control_plane.Service.Schedule.Alone.{alone, perform, perform-begin}
use gnuradio4_control_plane.Service.Refinement.{specified, view, perform-specified}
use gnuradio4_control_plane.Json.{JsonLibrary}
use gnuradio4_control_plane.Http.{
  Response, execute, handle_exception, set_error_response, set_json_response, current_error_details,
}
use gnuradio4_control_plane.Http.Sessions.{
  post_start, post_stop, post_restart, delete_session, reply, no_content,
}

module _ (json : JsonLibrary) (format_timestamp_utc : ℕ → String) {P R : Type 0}
    (manager : RuntimeManager P R) where
  -- The route of a lifecycle request.
  abbrev pub route : Request → String → ℕ → World R → Response × World R
  route start_request = post_start json format_timestamp_utc manager
  route stop_request = post_stop json format_timestamp_utc manager
  route restart_request = post_restart json format_timestamp_utc manager
  route remove_request = delete_session json format_timestamp_utc manager

  -- The response to what a lifecycle method returns or throws.
  abbrev pub response : Result (Option Session) → Response
  response (ok none) = no_content
  response (ok (some session)) = reply json format_timestamp_utc manager 200 session none
  response (err e) = execute json (err e)

  route-perform :
      (request : Request) (id : String) (now : ℕ) (w : World R)
      → route request id now w
        ≡ (response (perform manager request id now w).0, (perform manager request id now w).1)
  unfolding perform post_start post_stop post_restart delete_session execute
  route-perform start_request id now w = elim (Result-cases (Operations.start manager id now w).0) [
    | inl (x, e) ↦ rw e refl
    | inr (x, e) ↦ rw e refl
  ]
  route-perform stop_request id now w = elim (Result-cases (Operations.stop manager id now w).0) [
    | inl (x, e) ↦ rw e refl
    | inr (x, e) ↦ rw e refl
  ]
  route-perform restart_request id now w =
      elim (Result-cases (Operations.restart manager id now w).0) [
        | inl (x, e) ↦ rw e refl
        | inr (x, e) ↦ rw e refl
      ]
  route-perform remove_request id now w =
      elim (Result-cases (Operations.remove manager id now w).0) [
        | inl (x, e) ↦ rw e refl
        | inr (x, e) ↦ rw e refl
      ]

  -- With no call in flight, each lifecycle route answers as the specification of its method says.
  pub route-specified :
      (request : Request) (id : String) (now : ℕ) (w : World R)
      → Inv (alone w)
      → (route request id now w).0 ≡ response (specified manager request id now (view manager w)).0
  route-specified request id now w v =
      ap (λ (r : Response × World R). r.0) (route-perform request id now w)
      ∙ ap response (perform-specified manager request id now w v).0

  -- While a lifecycle call is in flight on a session, the four lifecycle routes of the session answer
  -- with status 409 and change nothing.
  pub route-in_flight :
      (s : System R)
      → Inv s
      → (request : Request) (id : String) (now : ℕ) → 0 < in_flight id s.calls
      → ((route request id now s.world).0.status ≡ 409)
        × ((route request id now s.world).1 ≡ s.world)
  unfolding execute handle_exception set_error_response set_json_response current_error_details
  route-in_flight s v request id now h =
      let (message, refused) = begin-in_flight s v request id h in
      rw
        (
          route-perform request id now s.world,
          perform-begin manager request id now s.world,
          refused,
        )
        (refl, refl)
