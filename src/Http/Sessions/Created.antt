-- ===== src/Http/Sessions/Created.antt =====
-- `POST /sessions`, by its body.
use gnuradio4_control_plane.Prelude.{ℕ, String, ◌≡◌, ◌⊎◌, [], ◌∷◌, Assoc}
use gnuradio4_control_plane.Errors.{Result, ok, err, validation_error}
use gnuradio4_control_plane.Runtime.{RuntimeManager}
use gnuradio4_control_plane.Service.Ids
use gnuradio4_control_plane.Json.{JsonLibrary}

module _ (json : JsonLibrary) (format_timestamp_utc : ℕ → String) {P R : Type 0}
    (manager : RuntimeManager P R) where
  open json use {object, text, parse}

  module _ (name grc alias : String) where
    abbrev fields : Assoc (json.Json)
    fields = ("name", text name) ∷ ("grc", text grc) ∷ ("scheduler_id", text alias) ∷ []

  -- A reading throws `ValidationError`, or it answers with something that passes.
  abbrev Reads : {A : Type 0} → (A → Type 0) → Result A → Type 0
  Reads Passes r =
      ((message : String) × (r ≡ err (validation_error message)))
      ⊎ ((a : _) × (r ≡ ok a) × Passes a)
