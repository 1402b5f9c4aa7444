-- ===== src/Provider/Reflect.antt =====
-- `reflect_block` of src/catalog/gr4_block_catalog_provider.cpp with the search of the retained
-- loaders: the block of an id, as a description. It runs in the child process.
use gnuradio4_control_plane.Prelude.{
  String, Option, none, some, List, [], ◌∷◌, ◌++◌, ◌<>◌, true, false,
}
use gnuradio4_control_plane.Errors.{Result, ok, err, catalog_load_error}
use gnuradio4_control_plane.Results.{◌>>=◌}
use gnuradio4_control_plane.Catalog.{BlockDescriptor}
use gnuradio4_control_plane.Provider.Model.{Values, BlockModel}
use gnuradio4_control_plane.Provider.Naming.{
  block_summary, block_name, derive_category_from_metadata, reflected_canonical_type,
}
use gnuradio4_control_plane.Provider.Parameters.{to_parameters}
use gnuradio4_control_plane.Provider.Collections.{to_ports}

-- GNU Radio in the child process: a retained loader makes a block or none, so does the registry, and
-- `prepare` is `settings().init()` with `applyStagedParameters()`. Each may throw.
pub record GnuRadio (values : Values) : Type 1 where
  pub Loader : Type 0
  pub instantiate : Loader → String → Result (Option (BlockModel values.Value))
  pub create : String → Result (Option (BlockModel values.Value))
  pub prepare : BlockModel values.Value → Result (BlockModel values.Value)

module _ (values : Values) where
  -- The fields of the description, of a block that is ready.
  unfoldable pub description : String → BlockModel values.Value → BlockDescriptor values.Double
  unfolding to_parameters block_summary block_name derive_category_from_metadata
      reflected_canonical_type to_ports
  description id block =
      let parameters = to_parameters values block in
      record {
        id = id;
        canonical_type = reflected_canonical_type values block;
        name = block_name values block id;
        category = derive_category_from_metadata values block.meta_information id;
        summary = block_summary values block;
        inputs = to_ports block.dynamic_input_ports id parameters true;
        outputs = to_ports block.dynamic_output_ports id parameters false;
        parameters = parameters;
      }

  module _ (radio : GnuRadio values) where
    open radio use {Loader, instantiate, create, prepare}

    -- The loop over the pool, given from its last loader to its first.
    unfoldable pub instantiate_from :
        List Loader → String → Result (Option (BlockModel values.Value))
    instantiate_from [] id = ok none
    instantiate_from (loader ∷ pool) id = instantiate loader id >>= λ model. elim model [
      | none ↦ instantiate_from pool id
      | some block ↦ ok (some block)
    ]

    unfoldable pub reversed : List Loader → List Loader
    reversed [] = []
    reversed (loader ∷ pool) = reversed pool ++ loader ∷ []

    unfoldable pub instantiate_from_retained_loaders :
        List Loader → String → Result (Option (BlockModel values.Value))
    unfolding instantiate_from reversed
    instantiate_from_retained_loaders pool id = instantiate_from (reversed pool) id

    abbrev made_or : String → Option (BlockModel values.Value) → Result (BlockModel values.Value)
    made_or id (some block) = ok block
    made_or id none =
        err (catalog_load_error ("failed to instantiate GNU Radio 4 block for catalog: " <> id))

    abbrev created_or :
        String → Option (BlockModel values.Value) → Result (Option (BlockModel values.Value))
    created_or id none = create id
    created_or id (some block) = ok (some block)

    -- The block, ready to be described.
    unfoldable pub ready_block : List Loader → String → Result (BlockModel values.Value)
    unfolding instantiate_from_retained_loaders
    ready_block pool id = do
      retained ← instantiate_from_retained_loaders pool id
      created ← created_or id retained
      block ← made_or id created
      prepare block

    unfoldable pub reflect_block : List Loader → String → Result (BlockDescriptor values.Double)
    unfolding ready_block description
    reflect_block pool id = do block ← ready_block pool id; ok (description id block)
