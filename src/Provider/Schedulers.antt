-- ===== src/Provider/Schedulers.antt =====
-- `Gr4SchedulerCatalogProvider` of src/catalog/gr4_scheduler_catalog_provider.cpp: the ids of the
-- schedulers that the plugins of GNU Radio register. The finding of libraries is that of the block
-- catalog; here only plugins are staged, and the loader is not kept.
use gnuradio4_control_plane.Prelude.{
  String, Bool, ◌||◌, none, some, List, [], ◌∷◌, map, if◌then◌else◌, ◌==◌, ◌<>◌, text_lt, sort,
  unique, find?,
}
use gnuradio4_control_plane.Errors.{
  Exec, Result, ok, err, pure, throw, ◌>>=◌, ◌>>◌, scheduler_catalog_load_error,
}
use gnuradio4_control_plane.Catalog.{SchedulerDescriptor}
use gnuradio4_control_plane.Provider.Plugins.{
  System, prepend_library_search_path, files_in, is_likely_gr4_library, is_plugin_library,
}
use gnuradio4_control_plane.Provider.Loading.{Loaded, in_world, preload_support_libraries, stage_if}

-- GNU Radio: `register_default_schedulers`, the plugin loader with the plugins that it failed to
-- load, and the schedulers that it knows.
pub record SchedulerLoader (W : Type 0) : Type 1 where
  pub Loader : Type 0
  pub register_default_schedulers : W → W
  pub plugin_loader : List String → Exec W Loader
  pub failed_plugins : Loader → List (String × String)
  pub available_schedulers : Loader → W → List String

abbrev should_preload : String → Bool
should_preload name =
    name == "libgnuradio-blocklib-core.dylib"
    || name == "libgnuradio-plugin.dylib"
    || name == "libgnuradio-blocklib-core.so"
    || name == "libgnuradio-plugin.so"

unfoldable pub is_alias_scheduler_id : String → Bool
is_alias_scheduler_id id = elim (find? id "<") [ none ↦ Bool.true | some _ ↦ Bool.false ]

-- `remove_if` of what is no alias.
unfoldable pub aliases : List String → List String
unfolding is_alias_scheduler_id
aliases [] = []
aliases (id ∷ ids) = let rest = aliases ids in if is_alias_scheduler_id id then id ∷ rest else rest

unfoldable pub descriptors_of : List String → List SchedulerDescriptor
descriptors_of [] = []
descriptors_of (id ∷ ids) = record { id = id } ∷ descriptors_of ids

abbrev pub described : List String → Result (List SchedulerDescriptor)
unfolding descriptors_of
described [] =
    err (scheduler_catalog_load_error "GNU Radio 4 plugin loader found no registered schedulers")
described (id ∷ ids) = ok (descriptors_of (id ∷ ids))

-- `list` from the ids that the loader knows.
unfoldable pub describe_schedulers : List String → Result (List SchedulerDescriptor)
unfolding aliases descriptors_of
describe_schedulers ids = described (aliases (unique (sort text_lt ids)))

module _ {W : Type 0} (system : System W) (schedulers : SchedulerLoader W) where
  open schedulers use {
    Loader, register_default_schedulers, plugin_loader, failed_plugins, available_schedulers,
  }

  unfoldable pub stage_plugins : List String → String → List String → Exec W (List String)
  unfolding stage_if is_plugin_library
  stage_plugins [] directory staged = pure staged
  stage_plugins (library ∷ libraries) directory staged = do
    plugins ←
        stage_if system scheduler_catalog_load_error (is_plugin_library system) directory library
          staged
    stage_plugins libraries directory plugins

  -- The directories for the loader: that of the staged plugins, if there are any.
  abbrev staged_in : String → List String → List String
  staged_in directory [] = []
  staged_in directory (library ∷ libraries) = directory ∷ []

  abbrev directories_for : List String → Exec W (List String)
  unfolding stage_plugins
  directories_for [] = throw (
      scheduler_catalog_load_error
        "no likely GNU Radio 4 plugin libraries were found in configured plugin directories")
  directories_for (library ∷ libraries) = do
    directory ← system.create_stage_directory "gr4cp-gr4-scheduler-stage-"
    staged ← stage_plugins (library ∷ libraries) directory []
    pure (staged_in directory staged)

  unfoldable pub collect_candidate_libraries : List String → Exec W (List String)
  unfolding stage_plugins files_in is_likely_gr4_library
  collect_candidate_libraries plugin_directories w =
      directories_for
        (unique (
          sort text_lt (
            map system.absolute
              (files_in system (is_likely_gr4_library system) plugin_directories w))))
        w

  abbrev changed : (W → W) → Exec (Loaded W) (Unit {0})
  changed f s = (ok tt, record s { world = f s.world })

  abbrev listed_or : Loader → List (String × String) → Exec (Loaded W) (List SchedulerDescriptor)
  unfolding describe_schedulers
  listed_or loader [] s = (describe_schedulers (available_schedulers loader s.world), s)
  listed_or loader ((path, error) ∷ plugins) s = (
    err (
        scheduler_catalog_load_error
          ("failed to load GNU Radio 4 plugin library (" <> path <> ": " <> error <> ")")),
    s,
  )

  unfoldable pub list : List String → Exec (Loaded W) (List SchedulerDescriptor)
  unfolding preload_support_libraries collect_candidate_libraries prepend_library_search_path
      describe_schedulers
  list [] = throw (scheduler_catalog_load_error "GNU Radio 4 plugin directories are not configured")
  list (directory ∷ directories) = do
    changed (prepend_library_search_path system (directory ∷ directories))
    preload_support_libraries system should_preload scheduler_catalog_load_error
        (directory ∷ directories)
    changed register_default_schedulers
    loader_directories ← in_world system (collect_candidate_libraries (directory ∷ directories))
    loader ← in_world system (plugin_loader loader_directories)
    listed_or loader (failed_plugins loader)
