-- ===== src/Service/Ids.antt =====
-- `generate_session_id` and `SessionService::create` of src/app/session_service.cpp. The draws of
-- the 64-bit random generator are an argument, oldest first.
pub mod Unique
use Prim.Native.String
use Prim.Native.Char.{Char}
use gnuradio4_control_plane.Prelude.{
  ℕ, zero, suc, ◌/◌, ◌%◌, String, Bool, true, false, Option, none, some, List, [], ◌∷◌,
  if◌then◌else◌, ◌<>◌, ◌==◌, insert, nat_eq, has_value,
}
use gnuradio4_control_plane.Errors.{
  Exec, Result, ok, err, pure, throw, ◌>>=◌, ◌>>◌, validation_error,
}
use gnuradio4_control_plane.Domain.Session.{Session, stopped}
use gnuradio4_control_plane.Storage
use gnuradio4_control_plane.Storage.{Repository}
use gnuradio4_control_plane.Service.State.{World, idle, on_repository, set_phase}

-- `std::hex` prints a digit so.
unfoldable pub hex_digit : ℕ → Char
hex_digit d =
    if nat_eq d 0
    then "0"
    else if nat_eq d 1
    then "1"
    else if nat_eq d 2
    then "2"
    else if nat_eq d 3
    then "3"
    else if nat_eq d 4
    then "4"
    else if nat_eq d 5
    then "5"
    else if nat_eq d 6
    then "6"
    else if nat_eq d 7
    then "7"
    else if nat_eq d 8
    then "8"
    else if nat_eq d 9
    then "9"
    else if nat_eq d 10
    then "a"
    else if nat_eq d 11
    then "b"
    else if nat_eq d 12
    then "c"
    else if nat_eq d 13
    then "d"
    else if nat_eq d 14
    then "e"
    else "f"

-- The last `width` hexadecimal digits of a number, then `rest`: `setw(width) << setfill('0')`, for
-- a number below `16 ^ width`.
unfoldable pub hex_padded : ℕ → ℕ → String → String
unfolding hex_digit
hex_padded zero n rest = rest
hex_padded (suc width) n rest = hex_padded width (n / 16) (String.◌∷◌ (hex_digit (n % 16)) rest)

unfoldable pub generate_session_id : ℕ → String
generate_session_id draw = "sess_" <> hex_padded 16 draw ""

-- `do { id = generate_session_id(); } while (repository_.get(id).has_value())`; `none` when the
-- draws at hand are used up and the loop has not ended.
unfoldable pub unused_id : List ℕ → Repository → Option String
unused_id [] sessions = none
unused_id (draw ∷ draws) sessions =
    if has_value (Storage.get (generate_session_id draw) sessions)
    then unused_id draws sessions
    else some (generate_session_id draw)

module _ {R : Type 0} where
  unfoldable pub create_session :
      String → String → Option String → ℕ → String → Exec (World R) Session
  unfolding set_phase
  create_session name grc scheduler_alias now id = do
    let session : Session = record {
      id = id;
      name = name;
      grc_content = grc;
      scheduler_alias = scheduler_alias;
      state = stopped;
      last_error = none;
      created_at = now;
      updated_at = now;
    }
    on_repository (Storage.create session)
    set_phase session.id idle
    pure session

  unfoldable pub create_with :
      String
      → String
      → Option String
      → ℕ
      → Option String
      → World R
      → Option (Result Session × World R)
  unfolding create_session
  create_with name grc scheduler_alias now none w = none
  create_with name grc scheduler_alias now (some id) w =
      some (create_session name grc scheduler_alias now id w)

  unfoldable pub create :
      String → String → Option String → List ℕ → ℕ → World R → Option (Result Session × World R)
  unfolding create_with
  create name grc scheduler_alias draws now w =
      if grc == ""
      then some (err (validation_error "grc_content must not be empty"), w)
      else create_with name grc scheduler_alias now (unused_id draws w.repository) w
