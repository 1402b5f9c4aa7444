-- ===== src/Provider/Loading.antt =====
-- `preload_support_libraries`, `collect_candidate_libraries` and `bootstrap_blocklib_symbols` of
-- src/catalog/gr4_block_catalog_provider.cpp. The handles that `dlopen` brings are
-- only kept, and closed where the function of a module throws.
use gnuradio4_control_plane.Prelude.{
  String, Bool, true, false, not, ◌||◌, Option, none, some, List, [], ◌∷◌, ◌++◌, map, if◌then◌else◌,
  ◌==◌, ◌<>◌, text_lt, sort, unique,
}
use text.Mathlib.Text.{starts_with}
use gnuradio4_control_plane.Errors.{
  Exec, Exception, Result, ok, err, pure, throw, continue, ◌>>=◌, ◌>>◌, catalog_load_error,
}
use gnuradio4_control_plane.Streams.Plan.{member}
use gnuradio4_control_plane.Provider.Text.{without_suffix}
use gnuradio4_control_plane.Provider.Plugins.{
  System, DirectoryEntry, files_in, is_likely_gr4_library, is_plugin_library,
  is_shared_block_library,
}

-- The static sets of the functions, beside the state of the system.
pub record Loaded (W : Type 0) : Type 0 where
  pub world : W
  pub loaded_libraries : List String
  pub retained : List String

-- `staged_libraries`, which nobody reads, is left out.
pub record CandidateLibraries : Type 0 where
  pub likely_libraries : List String
  pub staged_plugin_libraries : List String
  pub staged_shared_libraries : List String
  pub plugin_staging_directory : String

abbrev pub error_text : Option String → String
error_text none = ""
error_text (some text) = ": " <> text

unfoldable pub removed : String → List String → List String
removed name [] = []
removed name (x ∷ xs) = let rest = removed name xs in if x == name then rest else x ∷ rest

abbrev or_stem : String → Option String → String
or_stem name none = name
or_stem name (some stem) = stem

abbrev without_first_three : String → String
without_first_three (String.◌∷◌ a (String.◌∷◌ b (String.◌∷◌ c s))) = s
without_first_three s = s

-- The ending of a shared library; only one of the two is taken off.
abbrev without_extension : String → Option String → String
unfolding without_suffix
without_extension name (some stem) = stem
without_extension name none = or_stem name (without_suffix ".dylib" name)

abbrev without_shared : String → String
unfolding without_suffix
without_shared name = or_stem name (without_suffix "Shared" name)

module _ {W : Type 0} (system : System W) where
  open system use {
    is_directory, directory_entries, filename, absolute, in_directory, create_stage_directory,
    create_symlink, copy_file, dlopen, dlerror, bootstrap,
  }

  unfoldable pub module_name_from_library : String → String
  unfolding without_suffix
  module_name_from_library path =
      let name = filename path in
      let stem = if starts_with name "lib" then without_first_three name else name in
      without_shared (without_extension stem (without_suffix ".so" stem))

  abbrev pub in_world : {A : Type 0} → Exec W A → Exec (Loaded W) A
  in_world m s = ((m s.world).0, record s { world = (m s.world).1 })

  -- What the two providers share; the exception and the names to preload differ.
  module _ (load_error : String → Exception) where
    abbrev copied_or : String → String → Bool × W → Result String × W
    copied_or source destination (true, w) = (ok destination, w)
    copied_or source destination (false, w) =
        (err (load_error ("failed to stage GNU Radio 4 library: " <> source)), w)

    abbrev linked_or : String → String → Bool × W → Result String × W
    linked_or source destination (true, w) = (ok destination, w)
    linked_or source destination (false, w) =
        copied_or source destination (copy_file source destination w)

    unfoldable pub stage_library : String → String → Exec W String
    stage_library source destination w =
        linked_or source destination (create_symlink source destination w)

    -- The libraries of a directory that pass a test, staged there.
    unfoldable pub stage_if : (String → Bool) → String → String → List String → Exec W (List String)
    unfolding stage_library
    stage_if test directory library staged =
        if test library
        then (stage_library library (in_directory directory (filename library)) >>= λ destination.
            pure (staged ++ destination ∷ []))
        else pure staged

  module _ (should_preload : String → Bool) (load_error : String → Exception) where
    abbrev opened_or : String → Bool × W → Exec (Loaded W) (Unit {0})
    opened_or library (true, w) s =
        (ok tt, record s { world = w; loaded_libraries = library ∷ s.loaded_libraries })
    opened_or library (false, w) s = (
      err (
          load_error (
            "failed to preload GNU Radio 4 support library " <> library <> error_text (dlerror w))),
      record s { world = w },
    )

    abbrev preload_entry : DirectoryEntry → Exec (Loaded W) (Unit {0})
    preload_entry entry s =
        if not entry.is_regular_file || not (should_preload (filename entry.path))
        then (ok tt, s)
        else if member entry.path s.loaded_libraries
        then (ok tt, s)
        else opened_or entry.path (dlopen entry.path s.world) s

    unfoldable pub preload_entries : List DirectoryEntry → Exec (Loaded W) (Unit {0})
    preload_entries [] = pure tt
    preload_entries (entry ∷ entries) = preload_entry entry >> preload_entries entries

    unfoldable pub preload_support_libraries : List String → Exec (Loaded W) (Unit {0})
    unfolding preload_entries
    preload_support_libraries [] s = (ok tt, s)
    preload_support_libraries (directory ∷ directories) s = elim (is_directory directory s.world) [
      | true ↦
          let (answer, s₁) = preload_entries (directory_entries directory s.world) s in
          continue answer (λ _. preload_support_libraries directories) s₁
      | false ↦ preload_support_libraries directories s
    ]

  unfoldable pub stage_libraries :
      List String → CandidateLibraries → String → Exec W CandidateLibraries
  unfolding stage_if is_plugin_library is_shared_block_library
  stage_libraries [] candidates shared_directory = pure candidates
  stage_libraries (library ∷ libraries) candidates shared_directory = do
    plugins ←
        stage_if catalog_load_error (is_plugin_library system) candidates.plugin_staging_directory
          library candidates.staged_plugin_libraries
    shared ←
        stage_if catalog_load_error (is_shared_block_library system) shared_directory library
          candidates.staged_shared_libraries
    stage_libraries libraries
        (record candidates { staged_plugin_libraries = plugins; staged_shared_libraries = shared })
        shared_directory

  abbrev staged_from : List String → Exec W CandidateLibraries
  unfolding stage_libraries
  staged_from [] = throw (
      catalog_load_error
        "no likely GNU Radio 4 plugin libraries were found in configured plugin directories")
  staged_from (library ∷ libraries) = do
    plugin_directory ← create_stage_directory "gr4cp-gr4-stage-"
    shared_directory ← create_stage_directory "gr4cp-gr4-stage-"
    stage_libraries (library ∷ libraries)
        (record {
          likely_libraries = library ∷ libraries;
          staged_plugin_libraries = [];
          staged_shared_libraries = [];
          plugin_staging_directory = plugin_directory;
        })
        shared_directory

  unfoldable pub collect_candidate_libraries : List String → Exec W CandidateLibraries
  unfolding staged_from files_in is_likely_gr4_library
  collect_candidate_libraries plugin_directories w =
      staged_from
        (unique (
          sort text_lt
            (map absolute (files_in system (is_likely_gr4_library system) plugin_directories w))))
        w

  abbrev bootstrapped : String → Result (Unit {0}) × W → Exec (Loaded W) (Unit {0})
  unfolding removed
  bootstrapped library (ok _, w) s = (ok tt, record s { world = w })
  bootstrapped library (err e, w) s =
      (err e, record s { world = w; retained = removed library s.retained })

  abbrev bootstrap_opened : String → Bool × W → Exec (Loaded W) (Unit {0})
  unfolding module_name_from_library removed
  bootstrap_opened library (false, w) s = (ok tt, record s { world = w })
  bootstrap_opened library (true, w) s =
      bootstrapped library
        (bootstrap library ("gr_blocklib_init_module_" <> module_name_from_library library) w)
        (record s { world = w; retained = library ∷ s.retained })

  unfoldable pub bootstrap_blocklib_symbols : List String → Exec (Loaded W) (Unit {0})
  unfolding module_name_from_library removed
  bootstrap_blocklib_symbols [] s = (ok tt, s)
  bootstrap_blocklib_symbols (library ∷ libraries) s = elim (member library s.retained) [
    | true ↦ bootstrap_blocklib_symbols libraries s
    | false ↦
        let (answer, s₁) = bootstrap_opened library (dlopen library s.world) s in
        continue answer (λ _. bootstrap_blocklib_symbols libraries) s₁
  ]
