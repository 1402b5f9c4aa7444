-- ===== src/Provider/Plugins.antt =====
-- Finding and loading the plugin libraries in src/catalog/gr4_block_catalog_provider.cpp and
-- gr4_scheduler_catalog_provider.cpp, on Linux. The file system, the environment and the dynamic
-- loader are parameters. A path is a text.
use gnuradio4_control_plane.Prelude.{
  String, Bool, false, not, ◌&&◌, ◌||◌, Option, none, some, List, [], ◌∷◌, ◌++◌, if◌then◌else◌,
  ◌==◌, ◌<>◌, has_value, find?,
}
use text.Mathlib.Text.{starts_with}
use gnuradio4_control_plane.Errors.{Exec}
use gnuradio4_control_plane.Provider.Text.{colon_tokens, filled_tokens, joined_from}

pub record DirectoryEntry : Type 0 where
  pub path : String
  pub is_regular_file : Bool

-- `bootstrap` looks up the module's function in a library and calls it if it is there.
pub record System (W : Type 0) : Type 0 where
  pub get_env : String → W → Option String
  pub set_env : String → String → W → W
  pub is_directory : String → W → Bool
  pub directory_entries : String → W → List DirectoryEntry
  pub filename : String → String
  pub extension : String → String
  pub absolute : String → String
  pub in_directory : String → String → String
  pub create_stage_directory : String → Exec W String
  pub create_symlink : String → String → W → Bool × W
  pub copy_file : String → String → W → Bool × W
  pub dlopen : String → W → Bool × W
  pub dlerror : W → Option String
  pub bootstrap : String → String → Exec W (Unit {0})

unfoldable pub split_plugin_directories : String → List String
unfolding colon_tokens filled_tokens
split_plugin_directories paths = filled_tokens (colon_tokens paths)

abbrev pub has_part : String → String → Bool
has_part name part = has_value (find? name part)

module _ {W : Type 0} (system : System W) where
  open system use {get_env, set_env, is_directory, directory_entries, filename, extension, absolute}

  abbrev set_or : Option String → List String → List String
  unfolding split_plugin_directories
  set_or none otherwise = otherwise
  set_or (some env) otherwise = if env == "" then otherwise else split_plugin_directories env

  -- `configured` is the directory of the build, if there is one.
  unfoldable pub default_plugin_directories : List String → W → List String
  unfolding split_plugin_directories
  default_plugin_directories configured w =
      set_or (get_env "GNURADIO4_PLUGIN_DIRECTORIES" w) configured

  unfoldable pub is_shared_library : String → Bool
  is_shared_library path = extension path == ".so"

  unfoldable pub is_likely_gr4_library : String → Bool
  unfolding is_shared_library
  is_likely_gr4_library path =
      if not (is_shared_library path)
      then false
      else if starts_with (filename path) "libGr"
      then has_part (filename path) "Shared" || has_part (filename path) "Plugin"
      else starts_with (filename path) "libGood" && has_part (filename path) "Plugin"

  unfoldable pub is_plugin_library : String → Bool
  unfolding is_shared_library
  is_plugin_library path = is_shared_library path && has_part (filename path) "Plugin"

  unfoldable pub is_shared_block_library : String → Bool
  unfolding is_shared_library
  is_shared_block_library path = is_shared_library path && has_part (filename path) "Shared"

  abbrev with_existing : String → Option String → String
  with_existing value none = value
  with_existing value (some existing) =
      if existing == "" then value else if value == "" then existing else value <> ":" <> existing

  unfoldable pub prepend_library_search_path : List String → W → W
  unfolding joined_from
  prepend_library_search_path plugin_directories w =
      let value =
        with_existing (joined_from ":" "" plugin_directories) (get_env "LD_LIBRARY_PATH" w) in
      if value == "" then w else set_env "LD_LIBRARY_PATH" value w

  -- The regular files of the directories that pass a test, in turn.
  unfoldable pub files_of : (String → Bool) → List DirectoryEntry → List String
  files_of test [] = []
  files_of test (entry ∷ entries) =
      let rest = files_of test entries in
      if entry.is_regular_file && test entry.path then entry.path ∷ rest else rest

  unfoldable pub files_in : (String → Bool) → List String → W → List String
  unfolding files_of
  files_in test [] w = []
  files_in test (directory ∷ directories) w =
      (if is_directory directory w then files_of test (directory_entries directory w) else [])
      ++ files_in test directories w
