-- ===== src/Settings/Answers.antt =====
-- What src/api/http_server.cpp is to answer where a method of src/app/block_settings_service.cpp
-- throws.
use gnuradio4_control_plane.Prelude.{
  ℕ, String, ◌≡◌, refl, Option, none, some, if◌then◌else◌, Bool-cases, inl, inr, ◌<>◌,
}
use gnuradio4_control_plane.Errors.{
  Exec, Exception, Result, ok, err, continue, validation_error, not_found_error,
  invalid_state_error, runtime_error, timeout_error, block_not_found_error, reply_timeout_error,
  catalog_load_error, scheduler_catalog_load_error, std_error, unknown, what,
}
use gnuradio4_control_plane.Results
use gnuradio4_control_plane.Domain.Session.{Session, is_running}
use gnuradio4_control_plane.Http.{ErrorDetails, current_error_details}
use gnuradio4_control_plane.Settings.{translated, translate, running_or}

-- What the server answers to a method that throws.
abbrev pub answer : {A : Type 0} → Result A → Option ErrorDetails
unfolding current_error_details
answer (ok a) = none
answer (err e) = some (current_error_details e)

abbrev pub details : ℕ → String → String → ErrorDetails
details status code message = record { status = status; code = code; message = message }

-- The answers that are meant. First, those to what the runtime manager throws.
abbrev pub other_details : Option String → ErrorDetails
other_details none = details 500 "internal_error" "internal server error"
other_details (some message) = details 500 "runtime_error" message

abbrev pub runtime_details : Exception → ErrorDetails
unfolding what
runtime_details (block_not_found_error message) = details 404 "not_found" message
runtime_details (reply_timeout_error message) = details 504 "timeout" message
runtime_details e = other_details (what e)

abbrev pub runtime_answer : {A : Type 0} → Result A → Option ErrorDetails
unfolding what
runtime_answer (ok a) = none
runtime_answer (err e) = some (runtime_details e)

-- Those to a patch that is refused, and to one that is not.
abbrev pub text_or : Option String → String
text_or none = ""
text_or (some message) = message

abbrev pub patch_answer : {A : Type 0} → Result A → (A → Option ErrorDetails) → Option ErrorDetails
unfolding what
patch_answer (ok a) f = f a
patch_answer (err e) f = some (details 400 "validation_error" (text_or (what e)))

abbrev pub session_answer :
    String → Option Session → (Session → Option ErrorDetails) → Option ErrorDetails
session_answer id none f = some (details 404 "not_found" ("session not found: " <> id))
session_answer id (some session) f =
    if is_running session.state
    then f session
    else some (details 409 "invalid_state" ("session not running: " <> id))

pub session_answer_lem :
    {W A : Type 0} (id : String) (o : Option Session) (f : Session → Exec W A) (w : W)
    (g : Session → Option ErrorDetails)
    → ((session : Session) → answer (f session w).0 ≡ g session)
    → answer (continue (running_or id o) f w).0 ≡ session_answer id o g
unfolding current_error_details
session_answer_lem id none f w g h = refl
session_answer_lem id (some session) f w g h = elim (Bool-cases (is_running session.state)) [
  | inl e ↦ rw e (h session)
  | inr e ↦ rw e refl
]

pub translate-answer : {A : Type 0} (r : Result A) → answer (translate r) ≡ runtime_answer r
unfolding translated current_error_details what
translate-answer (ok a) = refl
translate-answer (err (validation_error t)) = refl
translate-answer (err (not_found_error t)) = refl
translate-answer (err (invalid_state_error t)) = refl
translate-answer (err (runtime_error t)) = refl
translate-answer (err (timeout_error t)) = refl
translate-answer (err (block_not_found_error t)) = refl
translate-answer (err (reply_timeout_error t)) = refl
translate-answer (err (catalog_load_error t)) = refl
translate-answer (err (scheduler_catalog_load_error t)) = refl
translate-answer (err (std_error t)) = refl
translate-answer (err unknown) = refl

-- A last step that throws nothing.
pub continue-answer :
    {W A B : Type 0} (r : Result A) (b : B) (w : W)
    → answer (continue r (λ _ w. (ok b, w)) w).0 ≡ answer r
unfolding current_error_details
continue-answer (ok a) b w = refl
continue-answer (err e) b w = refl

-- A value, or a `ValidationError`.
abbrev pub Validated : {A : Type 0} → Result A → Type 0
Validated (ok a) = Unit
Validated (err (validation_error t)) = Unit
Validated (err e) = ⊥

pub bind-Validated :
    {A B : Type 0} (r : Result A) (f : A → Result B)
    → Validated r
    → ((a : A) → Validated (f a))
    → Validated (Results.◌>>=◌ r f)
bind-Validated (ok a) f h g = g a
bind-Validated (err (validation_error t)) f h g = tt
bind-Validated (err (not_found_error t)) f h g = absurd h
bind-Validated (err (invalid_state_error t)) f h g = absurd h
bind-Validated (err (runtime_error t)) f h g = absurd h
bind-Validated (err (timeout_error t)) f h g = absurd h
bind-Validated (err (block_not_found_error t)) f h g = absurd h
bind-Validated (err (reply_timeout_error t)) f h g = absurd h
bind-Validated (err (catalog_load_error t)) f h g = absurd h
bind-Validated (err (scheduler_catalog_load_error t)) f h g = absurd h
bind-Validated (err (std_error t)) f h g = absurd h
bind-Validated (err unknown) f h g = absurd h

pub patch_answer_lem :
    {W A B : Type 0} (r : Result A) (f : A → Exec W B) (w : W) (g : A → Option ErrorDetails)
    → Validated r
    → ((a : A) → answer (f a w).0 ≡ g a)
    → answer (continue r f w).0 ≡ patch_answer r g
unfolding current_error_details what
patch_answer_lem (ok a) f w g v h = h a
patch_answer_lem (err (validation_error t)) f w g v h = refl
patch_answer_lem (err (not_found_error t)) f w g v h = absurd v
patch_answer_lem (err (invalid_state_error t)) f w g v h = absurd v
patch_answer_lem (err (runtime_error t)) f w g v h = absurd v
patch_answer_lem (err (timeout_error t)) f w g v h = absurd v
patch_answer_lem (err (block_not_found_error t)) f w g v h = absurd v
patch_answer_lem (err (reply_timeout_error t)) f w g v h = absurd v
patch_answer_lem (err (catalog_load_error t)) f w g v h = absurd v
patch_answer_lem (err (scheduler_catalog_load_error t)) f w g v h = absurd v
patch_answer_lem (err (std_error t)) f w g v h = absurd v
patch_answer_lem (err unknown) f w g v h = absurd v
