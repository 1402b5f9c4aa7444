-- ===== src/Domain/Session.antt =====
-- domain/session.hpp and src/domain/session.cpp. A timestamp is the count of the clock's ticks.
use gnuradio4_control_plane.Prelude.{
  ℕ, String, ◌≡◌, Option, ◌==◌, eq_iff, if◌then◌else◌, ◌<>◌, arith, ◌↔◌, Bool, true, false,
}
use gnuradio4_control_plane.Errors.{Result, ok, err, std_error}

pub data SessionState : Type 0 where
  stopped running error : SessionState

pub record Session : Type 0 where
  pub id : String
  pub name : String
  pub grc_content : String
  pub scheduler_alias : Option String
  pub state : SessionState
  pub last_error : Option String
  pub created_at : ℕ
  pub updated_at : ℕ

unfoldable pub to_string : SessionState → String
to_string stopped = "stopped"
to_string running = "running"
to_string error = "error"

unfoldable pub session_state_from_string : String → Result SessionState
session_state_from_string state =
    if state == "stopped"
    then ok stopped
    else if state == "running"
    then ok running
    else if state == "error"
    then ok error
    else err (std_error ("invalid session state: " <> state))

-- The texts that are read as a state are exactly the texts that a state prints as, and they are
-- read back as that state.
pub session_state_from_string-to_string :
    (t : String) (s : SessionState) → (session_state_from_string t ≡ ok s) ↔ (t ≡ to_string s)
unfolding session_state_from_string to_string
session_state_from_string-to_string t stopped =
    (λ h. ground (arith, eq_iff t "stopped", eq_iff t "running", eq_iff t "error"), λ h. rw h)
session_state_from_string-to_string t running =
    (λ h. ground (arith, eq_iff t "stopped", eq_iff t "running", eq_iff t "error"), λ h. rw h)
session_state_from_string-to_string t error =
    (λ h. ground (arith, eq_iff t "stopped", eq_iff t "running", eq_iff t "error"), λ h. rw h)

-- `session.state == SessionState::Running` and `== SessionState::Stopped`.
abbrev pub is_running : SessionState → Bool
is_running running = true
is_running _ = false

abbrev pub is_stopped : SessionState → Bool
is_stopped stopped = true
is_stopped _ = false
