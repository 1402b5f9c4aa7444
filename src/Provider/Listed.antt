-- ===== src/Provider/Listed.antt =====
-- What `Gr4BlockCatalogProvider::list` of src/catalog/gr4_block_catalog_provider.cpp returns.
use gnuradio4_control_plane.Prelude.{
  String, Option, List, [], ◌≡◌, ◌≢◌, ap, subst, ◌∙◌, text_lt, sort, unique, Increasing,
  unique-sort-Increasing, unique-sort-All, unique-sort-All_back, All,
}
use gnuradio4_control_plane.Errors.{continue, Result, ok, err}
use gnuradio4_control_plane.Results.{err≢ok}
use gnuradio4_control_plane.Catalog.{BlockDescriptor}
use gnuradio4_control_plane.Settings.Values.{JsonValue}
use gnuradio4_control_plane.Provider.Fields.{JsonFault}
use gnuradio4_control_plane.Provider.Worker.{Process}
use gnuradio4_control_plane.Provider.Plugins.{System}
use gnuradio4_control_plane.Provider.Listing.{
  Registry, Provider, registered, reflected, describe_ids, describe_registered, load, list,
}
use gnuradio4_control_plane.Provider.Described.{
  Among, All-Among, ids_of, described_in, Among-described_in, describe_ids-Among, describe_ids-ok,
  described_in-All, described_in-Increasing,
}

module _ {D : Type 0} (fault_text : JsonFault → String) (parse : String → Option (JsonValue D))
    (process : String → Process) where
  module _ {W : Type 0} (system : System W) (registry : Registry W) where
    -- A listing that ends well has loaded the plugins.
    pub listed-parts :
        (plugin_directories : List String) (p : Provider system registry)
        (blocks : List (BlockDescriptor D))
        → (list system registry fault_text parse process plugin_directories p).0 ≡ ok blocks
        → describe_ids fault_text parse process (
            unique (
              sort text_lt
                (registered system registry (load system registry plugin_directories p).1)))
          ≡ ok blocks
    unfolding list describe_registered
    listed-parts plugin_directories p blocks h =
        by_answer (load system registry plugin_directories p).0
          (load system registry plugin_directories p).1 h
      where
        by_answer :
            (r : Result Unit) (q : Provider system registry)
            → (continue r (λ _. describe_registered system registry fault_text parse process) q).0
              ≡ ok blocks
            → describe_ids fault_text parse process
                (unique (sort text_lt (registered system registry q)))
              ≡ ok blocks
        by_answer (ok _) q h = h
        by_answer (err e) q h = absurd (err≢ok _ _ h)

    -- Where what is described of an id has that id, a listing that returns has at least one block,
    -- its ids strictly increase, so that none is listed twice, and every property that all registered ids have,
    -- the listed ones have.
    pub list-Increasing :
        (plugin_directories : List String) (p : Provider system registry)
        (blocks : List (BlockDescriptor D))
        → ((id : String) (block : BlockDescriptor D)
            → reflected fault_text parse process id ≡ ok block
            → block.id ≡ id)
        → (list system registry fault_text parse process plugin_directories p).0 ≡ ok blocks
        → (blocks ≢ [])
          × Increasing (ids_of blocks)
          × ((P : String → Type 0)
              → All P (registered system registry (load system registry plugin_directories p).1)
              → All P (ids_of blocks))
    list-Increasing plugin_directories p blocks own_id h =
        let ids = registered system registry (load system registry plugin_directories p).1 in
        let (same, filled) =
          describe_ids-ok fault_text parse process _ blocks
            (listed-parts plugin_directories p blocks h) in
        (
          filled,
          subst (λ l. Increasing (ids_of l)) same
              (described_in-Increasing fault_text parse process own_id _
                (unique-sort-Increasing ids)),
          λ P all.
              subst (λ l. All P (ids_of l)) same
                (described_in-All fault_text parse process own_id P _ (unique-sort-All P ids all)),
        )

    -- Where the plugins are loaded and a registered id is described by its child, the listing
    -- returns, and the description is listed, whatever becomes of the children of other ids.
    pub list-Among :
        (plugin_directories : List String) (p : Provider system registry) (id : String)
        (block : BlockDescriptor D)
        → (load system registry plugin_directories p).0 ≡ ok tt
        → Among id (registered system registry (load system registry plugin_directories p).1)
        → reflected fault_text parse process id ≡ ok block
        → (blocks : List (BlockDescriptor D)) × ((list system registry fault_text parse process
              plugin_directories p).0
            ≡ ok blocks)
          × Among block blocks
    unfolding list describe_registered
    list-Among plugin_directories p id block loaded known described =
        let ids = registered system registry (load system registry plugin_directories p).1 in
        let found =
          All-Among _ id ids
            (unique-sort-All_back _ ids
              (Among-described_in fault_text parse process (unique (sort text_lt ids))))
            known block described in
        (
          described_in fault_text parse process (unique (sort text_lt ids)),
          ap
                (λ r.
                  (continue r (λ _. describe_registered system registry fault_text parse process)
                    (load system registry plugin_directories p).1).0)
                loaded
              ∙ describe_ids-Among fault_text parse process (unique (sort text_lt ids)) block found,
          found,
        )
