-- ===== src/Cli/Options.antt =====
-- The options of the commands in src/cli/cli.cpp.
use gnuradio4_control_plane.Prelude.{
  String, Option, none, some, List, [], ◌∷◌, ◌||◌, if◌then◌else◌, ◌==◌, ◌<>◌,
}
use gnuradio4_control_plane.Errors.{Result, ok, err, std_error}

-- The options behind the command: the URL that is given last.
unfoldable pub parse_common_options : String → List String → Result String
parse_common_options url [] = ok url
parse_common_options url (option ∷ []) =
    if option == "--url"
    then err (std_error "--url requires a value")
    else err (std_error ("unknown option: " <> option))
parse_common_options url (option ∷ value ∷ options) =
    let rest = parse_common_options value options in
    if option == "--url" then rest else err (std_error ("unknown option: " <> option))

pub record CreateOptions : Type 0 where
  pub file_path : String
  pub name : String
  pub url : String

abbrev set_option : String → String → CreateOptions → Option CreateOptions
set_option option value options =
    if option == "--file"
    then some (record options { file_path = value })
    else if option == "--name"
    then some (record options { name = value })
    else if option == "--url"
    then some (record options { url = value })
    else none

unfoldable pub parse_create_options : CreateOptions → List String → Result CreateOptions
parse_create_options options [] = ok options
parse_create_options options (option ∷ []) =
    if option == "--file" || option == "--name" || option == "--url"
    then err (std_error (option <> " requires a value"))
    else err (std_error ("unknown option: " <> option))
parse_create_options options (option ∷ value ∷ args) = elim (set_option option value options) [
  | none ↦ err (std_error ("unknown option: " <> option))
  | some next ↦ parse_create_options next args
]
