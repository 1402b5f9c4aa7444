-- ===== src/Provider/Parameters.antt =====
-- `to_parameters` of src/catalog/gr4_block_catalog_provider.cpp with its helpers: the parameters of
-- a block from its settings and its meta information.
use gnuradio4_control_plane.Prelude.{
  ◌-◌, ◌^◌, String, Bool, true, false, not, ◌&&◌, ◌||◌, Option, none, some, List, [], ◌∷◌, Assoc,
  if◌then◌else◌, ◌==◌, leb, text_lt, sort,
}
use gnuradio4_control_plane.Catalog.{
  ℤ, pos, negsuc, BlockParameterDefault, null_default, bool_default, int_default, double_default,
  string_default, BlockParameterDescriptor,
}
use gnuradio4_control_plane.Provider.Model.{
  Values, Visited, truth, signed_integer, unsigned_integer, floating, string, view, BlockModel,
  ValueType, bool_type, int8_type, int16_type, int32_type, int64_type, uint8_type, uint16_type,
  uint32_type, uint64_type, float32_type, float64_type, complex_float32_type, complex_float64_type,
  string_type, value_type_of_value, monostate_type,
}
use gnuradio4_control_plane.Provider.Naming.{
  parameter_meta_string, parameter_meta_string_list, text_or,
}

-- The names of a tensor, by the type of its items.
unfoldable pub tensor_type_name : ValueType → String
tensor_type_name bool_type = "bool_vector"
tensor_type_name int8_type = "int_vector"
tensor_type_name int16_type = "int_vector"
tensor_type_name int32_type = "int_vector"
tensor_type_name int64_type = "int_vector"
tensor_type_name uint8_type = "int_vector"
tensor_type_name uint16_type = "int_vector"
tensor_type_name uint32_type = "int_vector"
tensor_type_name uint64_type = "int_vector"
tensor_type_name float32_type = "float32_vector"
tensor_type_name float64_type = "float64_vector"
tensor_type_name complex_float32_type = "complex_float32_vector"
tensor_type_name complex_float64_type = "complex_float64_vector"
tensor_type_name string_type = "string_vector"
tensor_type_name value_type_of_value = "value_vector"
tensor_type_name monostate_type = "vector"

abbrev is_bool_type : ValueType → Bool
is_bool_type bool_type = true
is_bool_type _ = false

-- `std::numeric_limits<int>::min() <= item <= std::numeric_limits<int>::max()`.
abbrev in_int_range : ℤ → Bool
in_int_range (pos n) = leb n (2 ^ 31 - 1)
in_int_range (negsuc n) = leb n (2 ^ 31 - 1)

unfoldable pub parameter_runtime_mutability : String → Option String
parameter_runtime_mutability name =
    if name == "name" || name == "unique_name" then some "immutable" else none

unfoldable pub parameter_ui_hint : String → Option String
parameter_ui_hint name =
    if name == "name" || name == "unique_name"
    then some "read_only"
    else if name == "compute_domain"
        || name == "disconnect_on_done"
        || name == "ui_constraints"
        || name == "input_chunk_size"
        || name == "output_chunk_size"
        || name == "stride"
    then some "advanced"
    else none

module _ (values : Values) where
  open values use {
    Value, Double, visit, is_map, is_complex, is_tensor, is_string, is_integral, is_floating_point,
    value_type,
  }

  unfoldable pub parameter_type_name : Value → String
  unfolding tensor_type_name
  parameter_type_name value =
      if is_map value
      then "map"
      else if is_complex value
      then "complex"
      else if is_tensor value
      then tensor_type_name (value_type value)
      else if is_string value
      then "string"
      else if is_bool_type (value_type value)
      then "bool"
      else if is_integral value
      then "int"
      else if is_floating_point value
      then "float"
      else "value"

  abbrev pub default_of : Visited Double Value → BlockParameterDefault Double
  default_of (truth b) = bool_default b
  default_of (signed_integer z) = if in_int_range z then int_default z else null_default
  default_of (unsigned_integer n) = if leb n (2 ^ 31 - 1) then int_default (pos n) else null_default
  default_of (floating d) = double_default d
  default_of (string s) = string_default s
  default_of (view s) = string_default s
  default_of _ = null_default

  unfoldable pub parameter_default_value : Value → BlockParameterDefault Double
  parameter_default_value value = default_of (visit value)

  unfoldable pub parameter_value_kind : Value → Option String
  parameter_value_kind value =
      if not (is_map value) && not (is_tensor value) then some "scalar" else none

  unfoldable pub parameter_enum_choices : Assoc Value → String → Option (List String)
  unfolding parameter_meta_string_list
  parameter_enum_choices meta name = parameter_meta_string_list values meta name "::enum_values"

  unfoldable pub parameter_enum_type : Assoc Value → String → Option String
  unfolding parameter_meta_string
  parameter_enum_type meta name = parameter_meta_string values meta name "::enum_type"

  unfoldable pub parameter_summary : Assoc Value → String → String
  unfolding parameter_meta_string
  parameter_summary meta name =
      text_or values (parameter_meta_string values meta name "::description")
        (text_or values (parameter_meta_string values meta name "::documentation") "")

  -- The body of the loop; a descriptor's other fields keep their initial values.
  unfoldable pub parameter_of : Assoc Value → String → Value → BlockParameterDescriptor Double
  unfolding parameter_type_name parameter_default_value parameter_summary
      parameter_runtime_mutability parameter_value_kind parameter_enum_choices parameter_enum_type
      parameter_ui_hint
  parameter_of meta name value = record {
    name = name;
    type = parameter_type_name value;
    required = false;
    default_value = parameter_default_value value;
    summary = parameter_summary meta name;
    runtime_mutability = parameter_runtime_mutability name;
    value_kind = parameter_value_kind value;
    enum_choices = parameter_enum_choices meta name;
    enum_type = parameter_enum_type meta name;
    enum_labels = [];
    enum_source = none;
    ui_hint = parameter_ui_hint name;
    allow_custom_value = none;
  }

  unfoldable pub parameters_of : Assoc Value → Assoc Value → List (BlockParameterDescriptor Double)
  unfolding parameter_of
  parameters_of meta [] = []
  parameters_of meta ((name, value) ∷ settings) =
      parameter_of meta name value ∷ parameters_of meta settings

  unfoldable pub to_parameters : BlockModel Value → List (BlockParameterDescriptor Double)
  unfolding parameters_of
  to_parameters block =
      sort (λ (left right : BlockParameterDescriptor Double). text_lt left.name right.name)
        (parameters_of block.meta_information block.settings)
