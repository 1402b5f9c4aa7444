-- ===== src/Service/Schedule/Create.antt =====
-- What `SessionService::create` (src/app/session_service.cpp) does to the service's state.
use gnuradio4_control_plane.Prelude.{
  ℕ, String, ◌≡◌, refl, ◌⊎◌, inl, inr, Option, none, some, List, [], ◌∷◌, arith, find, ◌==◌,
  Option-cases, Bool-cases,
}
use gnuradio4_control_plane.Errors.{Result, ok, err}
use gnuradio4_control_plane.Domain.Session.{Session, stopped}
use gnuradio4_control_plane.Storage
use gnuradio4_control_plane.Storage.{Repository}
use gnuradio4_control_plane.Service.State.{World, idle}
use gnuradio4_control_plane.Service.Ids.{unused_id, create, generate_session_id}
use gnuradio4_control_plane.Service.Schedule.End.{settled}

-- The loop ends on an id that no session has.
pub unused_id-find :
    (draws : List ℕ) (sessions : Repository) (id : String)
    → unused_id draws sessions ≡ some id
    → find id sessions ≡ none
unfolding unused_id Storage.get
unused_id-find [] sessions id h = ground arith
unused_id-find (draw ∷ draws) sessions id h =
    elim (Option-cases (find (generate_session_id draw) sessions)) [
      | inl e ↦ ground arith
      | inr (x, e) ↦ ground (arith, unused_id-find draws sessions id)
    ]

-- The session that `create` stores under a new id.
abbrev pub new_session : String → String → Option String → ℕ → String → Session
new_session name grc alias now id = record {
  id = id;
  name = name;
  grc_content = grc;
  scheduler_alias = alias;
  state = stopped;
  last_error = none;
  created_at = now;
  updated_at = now;
}

-- `create` left the state as it was: it is still looping, or it threw.
abbrev pub Keeps : {R : Type 0} → World R → Option (Result Session × World R) → Type 0
Keeps w none = Unit
Keeps w (some (ok x, w')) = ⊥
Keeps w (some (err e, w')) = w' ≡ w

module _ {R : Type 0} (name grc : String) (alias : Option String) (draws : List ℕ) (now : ℕ)
    (w : World R) where
  abbrev pub Creates : Option (Result Session × World R) → Type 0
  Creates r =
      (id : String) × (find id w.repository ≡ none)
      × (r
          ≡ some (
            ok (new_session name grc alias now id),
            settled w id (new_session name grc alias now id) idle,
          ))

  pub create_cases :
      Creates (create name grc alias draws now w) ⊎ Keeps w (create name grc alias draws now w)
  unfolding create Storage.create
  create_cases = elim (Bool-cases (grc == "")) [
    | inl e ↦ inr (rw (e) refl)
    | inr e ↦ elim (Option-cases (unused_id draws w.repository)) [
      | inl f ↦ inr (rw (e, f) tt)
      | inr (id, f) ↦ inl (
        id,
        unused_id-find draws w.repository id f,
        ground (arith, unused_id-find draws w.repository id f),
      )
    ]
  ]
