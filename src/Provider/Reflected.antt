-- ===== src/Provider/Reflected.antt =====
-- The numbers of the descriptions that `reflect_block` of
-- src/catalog/gr4_block_catalog_provider.cpp makes.
use gnuradio4_control_plane.Prelude.{
  String, Bool, true, false, Option, none, some, List, [], ◌∷◌, ◌≢◌, arith, if◌then◌else◌, ◌==◌,
  All, place, sort, Bool-cases, inl, inr, Assoc, length, eq_iff, nat_eq,
}
use gnuradio4_control_plane.Catalog.{
  pos, negsuc, BlockParameterDescriptor, BlockParameterDefault, int_default, null_default,
  bool_default, double_default, string_default,
}
use gnuradio4_control_plane.Provider.Model.{
  Values, BlockModel, DynamicPortOrCollection, single, collection, Visited, truth, signed_integer,
  unsigned_integer, floating, string, view, string_tensor, value_tensor, unread,
}
use gnuradio4_control_plane.Provider.Model as Model
use gnuradio4_control_plane.Provider.Fits.{OptionIsInt, PortFits, DefaultFits, Fitting, Fits}
use gnuradio4_control_plane.Provider.Parameters.{
  parameter_default_value, parameter_of, parameters_of, to_parameters, default_of,
}
use gnuradio4_control_plane.Provider.Ports.{
  parameter_named, parameter_default_int, size_default, int_in, infer_collection_size_parameter,
}
use gnuradio4_control_plane.Provider.Collections.{
  infer_collection_render_port_count, infer_collection_metadata, to_port_descriptor, to_ports,
}
use gnuradio4_control_plane.Provider.Ranges.{to_int-pos, bounded_or-IsInt, lower-IsInt, upper-IsInt}
use gnuradio4_control_plane.Provider.Naming.{reflected_canonical_type}
use gnuradio4_control_plane.Provider.Reflect.{description}

pub All-place :
    {A : Type 0} (P : A → Type 0) (less : A → A → Bool) (x : A) (xs : List A)
    → P x
    → All P xs
    → All P (place less x xs)
unfolding place
All-place P less x [] h hs = (h, tt)
All-place P less x (y ∷ ys) h hs = elim (Bool-cases (less y x)) [
  | inl e ↦ rw (e, place) (hs.0, All-place P less x ys h hs.1)
  | inr e ↦ rw (e, place) (h, hs)
]

pub All-sort :
    {A : Type 0} (P : A → Type 0) (less : A → A → Bool) (xs : List A)
    → All P xs
    → All P (sort less xs)
unfolding sort
All-sort P less [] h = tt
All-sort P less (x ∷ xs) h = All-place P less x (sort less xs) h.0 (All-sort P less xs h.1)

module _ {D : Type 0} where
  default_int-IsInt : (v : BlockParameterDefault D) → DefaultFits v → OptionIsInt (int_in v)
  default_int-IsInt (int_default z) h = h
  default_int-IsInt null_default h = tt
  default_int-IsInt (bool_default b) h = tt
  default_int-IsInt (double_default d) h = tt
  default_int-IsInt (string_default s) h = tt

  parameter_named-IsInt :
      (name : String) (parameters : List (BlockParameterDescriptor D))
      → Fitting parameters
      → OptionIsInt (size_default (some name) parameters)
  unfolding parameter_named parameter_default_int
  parameter_named-IsInt name [] h = tt
  parameter_named-IsInt name (parameter ∷ parameters) h =
      elim (Bool-cases (parameter.name == name)) [
        | inl e ↦ rw (e, parameter_named) (default_int-IsInt parameter.default_value h.0)
        | inr e ↦ rw (e, parameter_named) (parameter_named-IsInt name parameters h.1)
      ]

  size_default-IsInt :
      (o : Option String) (parameters : List (BlockParameterDescriptor D))
      → Fitting parameters
      → OptionIsInt (size_default o parameters)
  unfolding parameter_named parameter_default_int
  size_default-IsInt none parameters h = tt
  size_default-IsInt (some name) parameters h = parameter_named-IsInt name parameters h

  to_port_descriptor-PortFits :
      (port : DynamicPortOrCollection) (block_id : String)
      (parameters : List (BlockParameterDescriptor D)) (is_input : Bool)
      → Fitting parameters
      → PortFits (to_port_descriptor port block_id parameters is_input)
  unfolding to_port_descriptor infer_collection_metadata infer_collection_render_port_count
  to_port_descriptor-PortFits (single port) block_id parameters is_input h =
      (ground arith, ground arith, ground arith, ground arith)
  to_port_descriptor-PortFits (collection name ports) block_id parameters is_input h =
      let size = infer_collection_size_parameter name is_input parameters in
      let low =
        lower-IsInt size (some (if nat_eq (length ports) 0 then pos 0 else pos 1)) (ground arith) in
      let high = upper-IsInt size (some (negsuc 0)) (ground arith) in
      (
        to_int-pos (length ports),
        bounded_or-IsInt _ _ _ (length ports) (size_default-IsInt size parameters h) low high,
        low,
        high,
      )

  to_ports-PortFits :
      (ports : List DynamicPortOrCollection) (block_id : String)
      (parameters : List (BlockParameterDescriptor D)) (is_input : Bool)
      → Fitting parameters
      → All PortFits (to_ports ports block_id parameters is_input)
  unfolding to_ports
  to_ports-PortFits [] block_id parameters is_input h = tt
  to_ports-PortFits (port ∷ ports) block_id parameters is_input h = (
    to_port_descriptor-PortFits port block_id parameters is_input h,
    to_ports-PortFits ports block_id parameters is_input h,
  )

module _ (values : Values) where
  open values use {Value, Double, visit}

  default_of-DefaultFits : (v : Visited Double Value) → DefaultFits (default_of values v)
  default_of-DefaultFits (truth b) = tt
  default_of-DefaultFits (signed_integer (pos n)) = ground arith
  default_of-DefaultFits (signed_integer (negsuc n)) = ground arith
  default_of-DefaultFits (unsigned_integer n) = ground arith
  default_of-DefaultFits (floating d) = tt
  default_of-DefaultFits (string s) = tt
  default_of-DefaultFits (view s) = tt
  default_of-DefaultFits (string_tensor l) = tt
  default_of-DefaultFits (value_tensor l) = tt
  default_of-DefaultFits (Model.map m) = tt
  default_of-DefaultFits unread = tt

  parameters_of-Fitting :
      (meta settings : Assoc Value) → Fitting (parameters_of values meta settings)
  unfolding parameters_of parameter_of parameter_default_value
  parameters_of-Fitting meta [] = tt
  parameters_of-Fitting meta ((name, value) ∷ settings) =
      (default_of-DefaultFits (visit value), parameters_of-Fitting meta settings)

  to_parameters-Fitting : (block : BlockModel Value) → Fitting (to_parameters values block)
  unfolding to_parameters
  to_parameters-Fitting block =
      All-sort (λ parameter. DefaultFits parameter.default_value) _ _
        (parameters_of-Fitting block.meta_information block.settings)

  reflected_canonical_type-named :
      (block : BlockModel Value) → reflected_canonical_type values block ≢ some ""
  unfolding reflected_canonical_type
  reflected_canonical_type-named block = ground (arith, eq_iff block.type_name "")

  -- In the description of any block the counts of the ports and the integer defaults of the
  -- parameters are in the range of `int`, and the canonical type is not the empty text.
  pub description-Fits :
      (id : String) (block : BlockModel Value) → Fits (description values id block)
  unfolding description
  description-Fits id block = record {
    named = reflected_canonical_type-named block;
    inputs_fit =
        to_ports-PortFits block.dynamic_input_ports id _ true (to_parameters-Fitting block);
    outputs_fit =
        to_ports-PortFits block.dynamic_output_ports id _ false (to_parameters-Fitting block);
    defaults_fit = to_parameters-Fitting block;
  }
