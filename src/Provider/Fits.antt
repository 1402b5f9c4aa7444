-- ===== src/Provider/Fits.antt =====
-- The descriptions of include/gr4cp/domain/block_catalog.hpp that JSON carries: their numbers are in
-- the range of `int`, and a canonical type is not empty.
use gnuradio4_control_plane.Prelude.{◌^◌, ◌<◌, Option, none, some, ◌≢◌, All, List}
use gnuradio4_control_plane.Catalog.{
  ℤ, pos, negsuc, BlockParameterDefault, int_default, BlockPortDescriptor, BlockParameterDescriptor,
  BlockDescriptor,
}

-- The range of `int`.
abbrev pub IsInt : ℤ → Type 0
IsInt (pos n) = n < 2 ^ 31
IsInt (negsuc n) = n < 2 ^ 31

abbrev pub OptionIsInt : Option ℤ → Type 0
OptionIsInt none = Unit
OptionIsInt (some z) = IsInt z

abbrev pub PortFits : BlockPortDescriptor → Type 0
PortFits port =
    OptionIsInt port.current_port_count
    × OptionIsInt port.render_port_count
    × OptionIsInt port.min_port_count
    × OptionIsInt port.max_port_count

module _ {D : Type 0} where
  abbrev pub DefaultFits : BlockParameterDefault D → Type 0
  DefaultFits (int_default z) = IsInt z
  DefaultFits _ = Unit

  abbrev pub Fitting : List (BlockParameterDescriptor D) → Type 0
  Fitting parameters = All (λ parameter. DefaultFits parameter.default_value) parameters

  pub record Fits (block : BlockDescriptor D) : Type 0 where
    pub named : block.canonical_type ≢ some ""
    pub inputs_fit : All PortFits block.inputs
    pub outputs_fit : All PortFits block.outputs
    pub defaults_fit : Fitting block.parameters
