-- ===== src/Provider/Decode.antt =====
-- The `parse_` functions of src/catalog/gr4_block_catalog_provider.cpp, by which the server reads a
-- description. The arguments of a constructor are evaluated from left to right.
use gnuradio4_control_plane.Prelude.{
  String, Option, none, some, List, [], ◌∷◌, Assoc, if◌then◌else◌, ◌==◌,
}
use gnuradio4_control_plane.Errors.{Result, ok, err, catalog_load_error}
use gnuradio4_control_plane.Results.{◌>>=◌}
use gnuradio4_control_plane.Catalog.{
  BlockParameterDefault, null_default, bool_default, int_default, double_default, string_default,
  BlockPortCardinalityKind, fixed, dynamic, BlockPortDescriptor, BlockParameterDescriptor,
  BlockDescriptor, pos,
}
use gnuradio4_control_plane.Settings.Values.{
  JsonValue, null, boolean, number_integer, number_unsigned, number_float, text, object, array,
}
use gnuradio4_control_plane.Provider.Fields.{
  JsonFault, no_json, to_int, find_in, view, as_text, as_int, as_bool, items, fault, at, get_text,
  get_bool, get_texts, get_labels,
}

unfoldable pub cardinality_kind_from_string : String → Option BlockPortCardinalityKind
cardinality_kind_from_string value =
    if value == "fixed" then some fixed else if value == "dynamic" then some dynamic else none

abbrev pub kind_or_fixed : Option String → BlockPortCardinalityKind
unfolding cardinality_kind_from_string
kind_or_fixed none = fixed
kind_or_fixed (some s) = elim (cardinality_kind_from_string s) [ none ↦ fixed | some k ↦ k ]

abbrev pub non_empty : Option String → Option String
non_empty none = none
non_empty (some s) = if s == "" then none else some s

module _ {D : Type 0} (fault_text : JsonFault → String) where
  unfoldable pub parse_default_value : JsonValue D → Result (BlockParameterDefault D)
  parse_default_value null = ok null_default
  parse_default_value (boolean b) = ok (bool_default b)
  parse_default_value (number_integer z) = ok (int_default (to_int z))
  parse_default_value (number_unsigned n) = ok (int_default (to_int (pos n)))
  parse_default_value (number_float d) = ok (double_default d)
  parse_default_value (text s) = ok (string_default s)
  parse_default_value _ = err (
      catalog_load_error
        "invalid GNU Radio 4 block reflection payload: unsupported parameter default value")

  unfoldable pub parse_port_descriptor : JsonValue D → Result BlockPortDescriptor
  parse_port_descriptor value = do
    name_value ← at fault_text "name" value
    name ← get_text fault_text name_value
    type_value ← at fault_text "type" value
    type ← get_text fault_text type_value
    ok (record {
      name = name;
      type = type;
      cardinality_kind = kind_or_fixed (view as_text (find_in "cardinality_kind" value));
      current_port_count = view as_int (find_in "current_port_count" value);
      render_port_count = view as_int (find_in "render_port_count" value);
      min_port_count = view as_int (find_in "min_port_count" value);
      max_port_count = view as_int (find_in "max_port_count" value);
      size_parameter = view as_text (find_in "size_parameter" value);
      handle_name_template = view as_text (find_in "handle_name_template" value);
    })

  abbrev pub choices_in : Option (JsonValue D) → Result (Option (List String))
  choices_in (some (array xs)) = do texts ← get_texts fault_text xs; ok (some texts)
  choices_in _ = ok none

  abbrev pub labels_in : Option (JsonValue D) → Result (Assoc String)
  labels_in (some (object m)) = get_labels fault_text m
  labels_in _ = ok []

  unfoldable pub parse_parameter_descriptor : JsonValue D → Result (BlockParameterDescriptor D)
  unfolding parse_default_value
  parse_parameter_descriptor value = do
    name_value ← at fault_text "name" value
    name ← get_text fault_text name_value
    type_value ← at fault_text "type" value
    type ← get_text fault_text type_value
    required_value ← at fault_text "required" value
    required ← get_bool fault_text required_value
    stored_default ← at fault_text "default_value" value
    default_value ← parse_default_value stored_default
    summary_value ← at fault_text "summary" value
    summary ← get_text fault_text summary_value
    enum_choices ← choices_in (find_in "enum_choices" value)
    enum_labels ← labels_in (find_in "enum_labels" value)
    ok (record {
      name = name;
      type = type;
      required = required;
      default_value = default_value;
      summary = summary;
      runtime_mutability = view as_text (find_in "runtime_mutability" value);
      value_kind = view as_text (find_in "value_kind" value);
      enum_choices = enum_choices;
      enum_type = view as_text (find_in "enum_type" value);
      enum_labels = enum_labels;
      enum_source = view as_text (find_in "enum_source" value);
      ui_hint = view as_text (find_in "ui_hint" value);
      allow_custom_value = view as_bool (find_in "allow_custom_value" value);
    })

  -- The loops of `parse_block_descriptor`.
  unfoldable pub parse_each :
      {A : Type 0} → (JsonValue D → Result A) → List (JsonValue D) → Result (List A)
  parse_each parse_one [] = ok []
  parse_each parse_one (v ∷ l) = do a ← parse_one v; rest ← parse_each parse_one l; ok (a ∷ rest)

  unfoldable pub block_of : JsonValue D → Result (BlockDescriptor D)
  unfolding parse_each parse_port_descriptor parse_parameter_descriptor
  block_of value = do
    id_value ← at fault_text "id" value
    id ← get_text fault_text id_value
    name_value ← at fault_text "name" value
    name ← get_text fault_text name_value
    category_value ← at fault_text "category" value
    category ← get_text fault_text category_value
    summary_value ← at fault_text "summary" value
    summary ← get_text fault_text summary_value
    input_values ← at fault_text "inputs" value
    inputs ← parse_each parse_port_descriptor (items input_values)
    output_values ← at fault_text "outputs" value
    outputs ← parse_each parse_port_descriptor (items output_values)
    parameter_values ← at fault_text "parameters" value
    parameters ← parse_each parse_parameter_descriptor (items parameter_values)
    ok (record {
      id = id;
      canonical_type = non_empty (view as_text (find_in "canonical_type" value));
      name = name;
      category = category;
      summary = summary;
      inputs = inputs;
      outputs = outputs;
      parameters = parameters;
    })

  module _ (parse : String → Option (JsonValue D)) where
    abbrev pub parsed_block : Option (JsonValue D) → Result (BlockDescriptor D)
    unfolding block_of
    parsed_block none = fault fault_text no_json
    parsed_block (some value) = block_of value

    unfoldable pub parse_block_descriptor : String → Result (BlockDescriptor D)
    unfolding block_of
    parse_block_descriptor payload = parsed_block (parse payload)
