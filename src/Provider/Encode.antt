-- ===== src/Provider/Encode.antt =====
-- The `to_json` functions of src/catalog/gr4_block_catalog_provider.cpp, by which the child process
-- writes a description. The keys that are assigned differ from one another.
use gnuradio4_control_plane.Prelude.{String, List, [], ◌∷◌, Assoc}
use gnuradio4_control_plane.Catalog.{
  BlockParameterDefault, null_default, bool_default, int_default, double_default, string_default,
  BlockPortCardinalityKind, fixed, dynamic, BlockPortDescriptor, BlockParameterDescriptor,
  BlockDescriptor,
}
use gnuradio4_control_plane.Settings.Values.{
  JsonValue, null, boolean, number_integer, number_float, text, object, array, Members, no_member,
  member, Elements, no_element, element,
}
use gnuradio4_control_plane.Provider.Fields.{optional}

unfoldable pub cardinality_kind_to_string : BlockPortCardinalityKind → String
cardinality_kind_to_string fixed = "fixed"
cardinality_kind_to_string dynamic = "dynamic"

module _ {D : Type 0} where
  -- The array of a list, and the object of a map of texts.
  abbrev pub each : {A : Type 0} → (A → JsonValue D) → List A → Elements D
  each encode [] = no_element
  each encode (a ∷ l) = element (encode a) (each encode l)

  abbrev pub labels : Assoc String → Members D
  labels [] = no_member
  labels ((k, s) ∷ m) = member k (text s) (labels m)

  unfoldable pub default_to_json : BlockParameterDefault D → JsonValue D
  default_to_json null_default = null
  default_to_json (bool_default b) = boolean b
  default_to_json (int_default n) = number_integer n
  default_to_json (double_default d) = number_float d
  default_to_json (string_default s) = text s

  unfoldable pub port_to_json : BlockPortDescriptor → JsonValue D
  unfolding cardinality_kind_to_string
  port_to_json port = object (
      member "name" (text port.name) (
        member "type" (text port.type) (
          member "cardinality_kind" (text (cardinality_kind_to_string port.cardinality_kind)) (
            optional "current_port_count" number_integer port.current_port_count (
              optional "render_port_count" number_integer port.render_port_count (
                optional "min_port_count" number_integer port.min_port_count (
                  optional "max_port_count" number_integer port.max_port_count (
                    optional "size_parameter" text port.size_parameter (
                      optional "handle_name_template" text port.handle_name_template
                        no_member)))))))))

  abbrev pub labels_or : Assoc String → Members D → Members D
  labels_or [] m = m
  labels_or (label ∷ rest) m = member "enum_labels" (object (labels (label ∷ rest))) m

  unfoldable pub parameter_to_json : BlockParameterDescriptor D → JsonValue D
  unfolding default_to_json
  parameter_to_json parameter = object (
      member "name" (text parameter.name) (
        member "type" (text parameter.type) (
          member "required" (boolean parameter.required) (
            member "default_value" (default_to_json parameter.default_value) (
              member "summary" (text parameter.summary) (
                optional "runtime_mutability" text parameter.runtime_mutability (
                  optional "value_kind" text parameter.value_kind (
                    optional "enum_choices" (λ choices. array (each text choices))
                      parameter.enum_choices
                      (optional "enum_type" text parameter.enum_type (
                        labels_or parameter.enum_labels (
                          optional "enum_source" text parameter.enum_source (
                            optional "ui_hint" text parameter.ui_hint (
                              optional "allow_custom_value" boolean parameter.allow_custom_value
                                no_member)))))))))))))

  unfoldable pub block_to_json : BlockDescriptor D → JsonValue D
  unfolding port_to_json parameter_to_json
  block_to_json block = object (
      member "id" (text block.id) (
        member "name" (text block.name) (
          member "category" (text block.category) (
            member "summary" (text block.summary) (
              member "inputs" (array (each port_to_json block.inputs)) (
                member "outputs" (array (each port_to_json block.outputs)) (
                  member "parameters" (array (each parameter_to_json block.parameters))
                    (optional "canonical_type" text block.canonical_type no_member))))))))
