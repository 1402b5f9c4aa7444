-- ===== src/Provider/RoundTrip.antt =====
-- The description of a block that the child process writes and the server reads back.
use gnuradio4_control_plane.Prelude.{
  String, Option, none, some, List, [], ◌∷◌, ◌≡◌, ◌≢◌, refl, ap, ◌∙◌, arith, if◌then◌else◌, All,
  ◌==◌, Assoc, eq_iff,
}
use gnuradio4_control_plane.Errors.{Result, ok}
use gnuradio4_control_plane.Results.{◌>>=◌}
use gnuradio4_control_plane.Catalog.{
  BlockPortCardinalityKind, fixed, dynamic, BlockPortDescriptor, BlockParameterDescriptor,
  BlockDescriptor, BlockParameterDefault, null_default, bool_default, int_default, double_default,
  string_default, pos, negsuc,
}
use gnuradio4_control_plane.Settings.Values.{JsonValue, text, array, object, Members}
use gnuradio4_control_plane.Provider.Fields.{JsonFault, lookup, elements, get_texts, get_labels}
use gnuradio4_control_plane.Provider.Encode.{
  port_to_json, cardinality_kind_to_string, parameter_to_json, block_to_json, default_to_json, each,
  labels, labels_or,
}
use gnuradio4_control_plane.Provider.Decode.{
  parse_port_descriptor, cardinality_kind_from_string, kind_or_fixed, parse_default_value,
  choices_in, labels_in, parse_parameter_descriptor, parse_each, block_of, parse_block_descriptor,
  non_empty, parsed_block,
}
use gnuradio4_control_plane.Provider.Fits.{PortFits, DefaultFits, Fits}
use gnuradio4_control_plane.Provider.Reread.{
  reread, reread_members, reread_elements, reread_option, or_else, lookup-reread, lookup-optional,
  view-as_text, view-as_bool, view-as_int, to_int-IsInt,
}

kind_or_fixed-to_string :
    (k : BlockPortCardinalityKind) → kind_or_fixed (some (cardinality_kind_to_string k)) ≡ k
unfolding cardinality_kind_to_string cardinality_kind_from_string
kind_or_fixed-to_string fixed = refl
kind_or_fixed-to_string dynamic = refl

module _ (D : Type 0) (fault_text : JsonFault → String) where
  parse_port_descriptor-to_json :
      (port : BlockPortDescriptor)
      → PortFits port
      → parse_port_descriptor {D = D} fault_text (reread (port_to_json port)) ≡ ok port
  unfolding parse_port_descriptor port_to_json reread reread_members lookup
  parse_port_descriptor-to_json port h = simp (
    lookup-reread,
    lookup-optional,
    kind_or_fixed-to_string port.cardinality_kind,
    view-as_int D port.current_port_count h.0,
    view-as_int D port.render_port_count h.1,
    view-as_int D port.min_port_count h.2,
    view-as_int D port.max_port_count h.3,
    view-as_text D,
  )

  parse_default_value-to_json :
      (v : BlockParameterDefault D)
      → DefaultFits v
      → parse_default_value fault_text (reread (default_to_json v)) ≡ ok v
  unfolding parse_default_value default_to_json reread
  parse_default_value-to_json null_default h = refl
  parse_default_value-to_json (bool_default b) h = refl
  parse_default_value-to_json (int_default (pos n)) h =
      ap (λ z. ok (int_default z)) (to_int-IsInt (pos n) h)
  parse_default_value-to_json (int_default (negsuc n)) h =
      ap (λ z. ok (int_default z)) (to_int-IsInt (negsuc n) h)
  parse_default_value-to_json (double_default d) h = refl
  parse_default_value-to_json (string_default s) h = refl

  get_texts-each :
      (l : List String) → get_texts {D = D} fault_text (reread_elements (each text l)) ≡ ok l
  unfolding get_texts reread_elements reread
  get_texts-each [] = refl
  get_texts-each (s ∷ l) = ap (λ r. r >>= λ rest. ok (s ∷ rest)) (get_texts-each l)

  get_labels-labels :
      (m : Assoc String) → get_labels {D = D} fault_text (reread_members (labels m)) ≡ ok m
  unfolding get_labels reread_members reread
  get_labels-labels [] = refl
  get_labels-labels ((k, s) ∷ m) = ap (λ r. r >>= λ rest. ok ((k, s) ∷ rest)) (get_labels-labels m)

  abbrev choices_json : List String → JsonValue D
  choices_json l = array (each text l)

  choices_in-or_else :
      (o : Option (List String))
      → choices_in fault_text (reread_option (or_else choices_json o none)) ≡ ok o
  unfolding reread
  choices_in-or_else none = refl
  choices_in-or_else (some l) = ap (λ r. r >>= λ texts. ok (some texts)) (get_texts-each l)

  abbrev labels_json : Assoc String → Option (JsonValue D) → Option (JsonValue D)
  labels_json [] rest = rest
  labels_json (label ∷ m) rest = some (object (labels (label ∷ m)))

  labels_in-labels_json :
      (m : Assoc String) → labels_in fault_text (reread_option (labels_json m none)) ≡ ok m
  unfolding reread
  labels_in-labels_json [] = refl
  labels_in-labels_json (label ∷ m) = get_labels-labels (label ∷ m)

  lookup-labels_or :
      (key : String) (l : Assoc String) (m : Members D)
      → lookup key (labels_or l m)
        ≡ (if "enum_labels" == key then labels_json l (lookup key m) else lookup key m)
  unfolding lookup
  lookup-labels_or key [] m = ground arith
  lookup-labels_or key (label ∷ l) m = ground arith

  parse_parameter_descriptor-to_json :
      (parameter : BlockParameterDescriptor D)
      → DefaultFits parameter.default_value
      → parse_parameter_descriptor fault_text (reread (parameter_to_json parameter)) ≡ ok parameter
  unfolding parse_parameter_descriptor parameter_to_json reread reread_members lookup
  parse_parameter_descriptor-to_json parameter h = simp (
    lookup-reread,
    lookup-optional,
    lookup-labels_or,
    parse_default_value-to_json parameter.default_value h,
    choices_in-or_else,
    labels_in-labels_json,
    view-as_text D,
    view-as_bool D,
  )

  parse_each-each :
      {A : Type 0} (parse_one : JsonValue D → Result A) (encode : A → JsonValue D) (P : A → Type 0)
      → ((a : A) → P a → parse_one (reread (encode a)) ≡ ok a)
      → (l : List A) → All P l
      → parse_each fault_text parse_one (elements (reread_elements (each encode l))) ≡ ok l
  unfolding parse_each reread_elements
  parse_each-each parse_one encode P same [] h = refl
  parse_each-each parse_one encode P same (a ∷ l) h =
      rw (same a h.0, parse_each-each parse_one encode P same l h.1) refl

  non_empty-other : (o : Option String) → o ≢ some "" → non_empty o ≡ o
  non_empty-other none h = refl
  non_empty-other (some s) h = ground (arith, eq_iff s "", h)

  block_of-to_json :
      (block : BlockDescriptor D)
      → Fits block
      → block_of fault_text (reread (block_to_json block)) ≡ ok block
  unfolding block_of block_to_json reread reread_members lookup
  block_of-to_json block h = simp (
    lookup-reread,
    lookup-optional,
    parse_each-each (parse_port_descriptor fault_text) port_to_json PortFits
        parse_port_descriptor-to_json block.inputs h.inputs_fit,
    parse_each-each (parse_port_descriptor fault_text) port_to_json PortFits
        parse_port_descriptor-to_json block.outputs h.outputs_fit,
    parse_each-each (parse_parameter_descriptor fault_text) parameter_to_json
        (λ parameter. DefaultFits parameter.default_value) parse_parameter_descriptor-to_json
        block.parameters h.defaults_fit,
    view-as_text D,
    non_empty-other block.canonical_type h.named,
  )

  -- Where the text of a description is read back by the library, with the numbers that are not negative as
  -- unsigned ones, each `int` of the description is in its range and its canonical type is not
  -- empty, `parse_block_descriptor` returns the description.
  pub parse_block_descriptor-dump :
      (parse : String → Option (JsonValue D)) (dump : JsonValue D → String)
      (block : BlockDescriptor D)
      → parse (dump (block_to_json block)) ≡ some (reread (block_to_json block))
      → Fits block
      → parse_block_descriptor fault_text parse (dump (block_to_json block)) ≡ ok block
  unfolding parse_block_descriptor
  parse_block_descriptor-dump parse dump block e h =
      ap (parsed_block fault_text parse) e ∙ block_of-to_json block h
