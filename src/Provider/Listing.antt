-- ===== src/Provider/Listing.antt =====
-- `Gr4BlockCatalogProvider` of src/catalog/gr4_block_catalog_provider.cpp. `process` has what the
-- operating system answers for the child of an id: a listing makes one child for each id. Lines that
-- are logged are left out.
use gnuradio4_control_plane.Prelude.{
  String, Bool, ◌||◌, Option, List, [], ◌∷◌, ◌++◌, ◌==◌, ◌<>◌, text_lt, sort, unique,
}
use gnuradio4_control_plane.Errors.{Exec, Result, ok, err, throw, ◌>>=◌, ◌>>◌, catalog_load_error}
use gnuradio4_control_plane.Catalog.{BlockDescriptor}
use gnuradio4_control_plane.Settings.Values.{JsonValue}
use gnuradio4_control_plane.Provider.Fields.{JsonFault}
use gnuradio4_control_plane.Provider.Worker.{Process, reflect_block_in_subprocess}
use gnuradio4_control_plane.Provider.Plugins.{
  System, prepend_library_search_path, default_plugin_directories,
}
use gnuradio4_control_plane.Provider.Loading.{
  Loaded, CandidateLibraries, preload_support_libraries, collect_candidate_libraries,
  bootstrap_blocklib_symbols,
}

-- GNU Radio in the server's process: the making of a plugin loader, the plugins that it failed to
-- load, and the ids that the global registry and a loader know.
pub record Registry (W : Type 0) : Type 1 where
  pub Loader : Type 0
  pub plugin_loader : List String → Exec W Loader
  pub failed_plugins : Loader → List (String × String)
  pub keys : W → List String
  pub available_blocks : Loader → W → List String

abbrev should_preload : String → Bool
should_preload name = name == "libgnuradio-blocklib-core.so" || name == "libgnuradio-plugin.so"

module _ {D : Type 0} where
  abbrev pub before_all :
      BlockDescriptor D → Result (List (BlockDescriptor D)) → Result (List (BlockDescriptor D))
  before_all block (ok blocks) = ok (block ∷ blocks)
  before_all block (err e) = err e

  -- `catch (const CatalogLoadError& error)`.
  abbrev pub added :
      Result (BlockDescriptor D)
      → Result (List (BlockDescriptor D))
      → Result (List (BlockDescriptor D))
  added (ok block) rest = before_all block rest
  added (err (catalog_load_error text)) rest = rest
  added (err e) rest = err e

  abbrev pub usable_or : Result (List (BlockDescriptor D)) → Result (List (BlockDescriptor D))
  usable_or (ok []) =
      err (catalog_load_error "GNU Radio 4 catalog reflection produced no usable blocks")
  usable_or r = r

module _ {D : Type 0} (fault_text : JsonFault → String) (parse : String → Option (JsonValue D))
    (process : String → Process) where
  abbrev pub reflected : String → Result (BlockDescriptor D)
  unfolding reflect_block_in_subprocess
  reflected id = reflect_block_in_subprocess fault_text parse id (process id)

  unfoldable pub reflect_all : List String → Result (List (BlockDescriptor D))
  unfolding reflect_block_in_subprocess
  reflect_all [] = ok []
  reflect_all (id ∷ ids) = added (reflected id) (reflect_all ids)

  abbrev pub describe_ids : List String → Result (List (BlockDescriptor D))
  unfolding reflect_all
  describe_ids [] = err (catalog_load_error "GNU Radio 4 plugin loader found no registered blocks")
  describe_ids (id ∷ ids) = usable_or (reflect_all (id ∷ ids))

module _ {W : Type 0} (system : System W) (registry : Registry W) where
  -- The static pool of loaders beside the other statics.
  pub record Provider : Type 0 where
    pub loaded : Loaded W
    pub pool : List registry.Loader

  abbrev on_loaded : {A : Type 0} → Exec (Loaded W) A → Exec Provider A
  on_loaded m p = ((m p.loaded).0, record p { loaded = (m p.loaded).1 })

  abbrev on_world : {A : Type 0} → Exec W A → Exec Provider A
  on_world m p =
      ((m p.loaded.world).0, record p { loaded = record p.loaded { world = (m p.loaded.world).1 } })

  abbrev search_path_set : List String → Exec Provider (Unit {0})
  unfolding prepend_library_search_path
  search_path_set directories =
      on_world (λ w. (ok tt, prepend_library_search_path system directories w))

  unfoldable pub constructed : List String → List String → W → List String
  unfolding default_plugin_directories
  constructed plugin_directories configured w = elim plugin_directories [
    | [] ↦ default_plugin_directories system configured w
    | ◌∷◌ directory directories ↦ directory ∷ directories
  ]

  unfoldable pub available_blocks_of : List registry.Loader → W → List String
  available_blocks_of [] w = []
  available_blocks_of (loader ∷ pool) w =
      registry.available_blocks loader w ++ available_blocks_of pool w

  unfoldable pub available_blocks_from_retained_loaders : Provider → List String
  unfolding available_blocks_of
  available_blocks_from_retained_loaders p =
      unique (sort text_lt (available_blocks_of p.pool p.loaded.world))

  -- The ids that the registry and the retained loaders know.
  unfoldable pub registered : Provider → List String
  unfolding available_blocks_from_retained_loaders
  registered p = registry.keys p.loaded.world ++ available_blocks_from_retained_loaders p

  abbrev loader_directories : CandidateLibraries → List String
  loader_directories candidates = elim candidates.staged_plugin_libraries [
    | [] ↦ []
    | ◌∷◌ library libraries ↦ candidates.plugin_staging_directory ∷ []
  ]

  -- `retain_loader`, unless a plugin failed.
  abbrev retain_or : registry.Loader → List (String × String) → Exec Provider (Unit {0})
  retain_or loader [] p = (ok tt, record p { pool = p.pool ++ loader ∷ [] })
  retain_or loader ((path, error) ∷ plugins) p = (
    err (
        catalog_load_error
          ("failed to load GNU Radio 4 plugin library (" <> path <> ": " <> error <> ")")),
    p,
  )

  -- `list` up to the loading of the plugins.
  unfoldable pub load : List String → Exec Provider (Unit {0})
  unfolding preload_support_libraries collect_candidate_libraries bootstrap_blocklib_symbols
      prepend_library_search_path
  load [] = throw (catalog_load_error "GNU Radio 4 plugin directories are not configured")
  load (directory ∷ directories) = do
    search_path_set (directory ∷ directories)
    on_loaded (
        preload_support_libraries system should_preload catalog_load_error
          (directory ∷ directories))
    candidates ← on_world (collect_candidate_libraries system (directory ∷ directories))
    on_loaded (bootstrap_blocklib_symbols system candidates.staged_shared_libraries)
    loader ← on_world (registry.plugin_loader (loader_directories candidates))
    retain_or loader (registry.failed_plugins loader)

  module _ {D : Type 0} (fault_text : JsonFault → String) (parse : String → Option (JsonValue D))
      (process : String → Process) where
    -- The rest of `list`.
    unfoldable pub describe_registered : Exec Provider (List (BlockDescriptor D))
    unfolding reflect_all registered
    describe_registered p =
        (describe_ids fault_text parse process (unique (sort text_lt (registered p))), p)

    unfoldable pub list : List String → Exec Provider (List (BlockDescriptor D))
    unfolding load describe_registered
    list plugin_directories = load plugin_directories >> describe_registered
