-- ===== src/Provider/Collections.antt =====
-- `to_ports` of src/catalog/gr4_block_catalog_provider.cpp with its helpers: the ports of a block, and
-- what is inferred of a collection of ports.
use Prim.Native.Char.{code}
use Prim.Native.String.{String, [], ◌∷◌}
use mathlib.Core.List.{List}
use gnuradio4_control_plane.Prelude.{
  ℕ, zero, suc, Bool, true, false, not, ◌&&◌, Option, none, some, if◌then◌else◌, ◌==◌, ◌<>◌, nat_eq,
  length, map, ◌≡◌, refl,
}
use gnuradio4_control_plane.Catalog.{
  ℤ, pos, negsuc, BlockParameterDescriptor, BlockPortDescriptor, BlockPortCardinalityKind, fixed,
  dynamic,
}
use gnuradio4_control_plane.Provider.Model.{
  DynamicPort, DynamicPortOrCollection, single, collection,
}
use gnuradio4_control_plane.Provider.Fields.{to_int}
use gnuradio4_control_plane.Provider.Text.{behind_first, before_last, trim_copy}
use gnuradio4_control_plane.Provider.Ports.{
  ltb_ℤ, port_count_lower_bound, port_count_upper_bound, infer_collection_size_parameter,
  size_default, parameter_named, parameter_default_int,
}

-- The loop over the arguments of a template, up to a comma that no brackets enclose.
unfoldable pub first_argument : ℕ → String → String
first_argument depth [] = []
first_argument zero (c ∷ s) = elim (nat_eq (code c) b',') [
  | true ↦ []
  | false ↦ c ∷ first_argument (if nat_eq (code c) b'<' then 1 else 0) s
]
first_argument (suc depth) (c ∷ s) =
    c
    ∷ first_argument
        (if nat_eq (code c) b'<'
          then suc (suc depth)
          else if nat_eq (code c) b'>'
          then depth
          else suc depth)
        s

abbrev filled : String → Option String
filled s = if s == "" then none else some s

abbrev type_in : Option String → Option String
unfolding first_argument trim_copy
type_in none = none
type_in (some args) = if args == "" then none else filled (trim_copy (first_argument 0 args))

abbrev arguments_in : Option String → Option String
unfolding before_last
arguments_in none = none
arguments_in (some rest) = before_last (λ c. nat_eq c b'>') rest

-- The type between the first `<` and the last `>`.
unfoldable pub infer_collection_element_type : String → Option String
unfolding behind_first before_last first_argument trim_copy
infer_collection_element_type block_id =
    type_in (arguments_in (behind_first (λ c. nat_eq c b'<') block_id))

abbrev pub at_least : Option ℤ → ℤ → ℤ
unfolding ltb_ℤ
at_least none count = count
at_least (some m) count = if ltb_ℤ count m then m else count

-- `*max_port_count >= 0 && count > *max_port_count`.
abbrev pub at_most : Option ℤ → ℤ → ℤ
unfolding ltb_ℤ
at_most none count = count
at_most (some m) count = if not (ltb_ℤ m (pos 0)) && ltb_ℤ m count then m else count

abbrev pub positive : Option ℤ → Option ℤ
unfolding ltb_ℤ
positive none = none
positive (some m) = if ltb_ℤ (pos 0) m then some m else none

abbrev pub bounded_or : Option ℤ → ℕ → Option ℤ → Option ℤ → Option ℤ
bounded_or (some count) current_count min_port_count max_port_count =
    some (at_most max_port_count (at_least min_port_count count))
bounded_or none zero min_port_count max_port_count = positive min_port_count
bounded_or none (suc n) min_port_count max_port_count = some (to_int (pos (suc n)))

pub record CollectionMetadata : Type 0 where
  pub cardinality_kind : BlockPortCardinalityKind
  pub current_port_count : Option ℤ
  pub render_port_count : Option ℤ
  pub min_port_count : Option ℤ
  pub max_port_count : Option ℤ
  pub size_parameter : Option String
  pub handle_name_template : Option String
  pub element_type : Option String

abbrev front_type : List DynamicPort → String
front_type List.[] = ""
front_type (List.◌∷◌ port ports) = port.type_name

abbrev type_or : String → Option String → String
type_or type none = type
type_or type (some element_type) = if type == "" then element_type else type

abbrev pub bound_or : (String → Option ℤ) → Option String → Option ℤ → Option ℤ
bound_or bound none otherwise = otherwise
bound_or bound (some name) otherwise = elim (bound name) [ none ↦ otherwise | some z ↦ some z ]

module _ {D : Type 0} where
  unfoldable pub infer_collection_render_port_count :
      String → Bool → List (BlockParameterDescriptor D) → ℕ → Option ℤ → Option ℤ → Option ℤ
  unfolding infer_collection_size_parameter parameter_named parameter_default_int
  infer_collection_render_port_count collection_name is_input parameters current_count
        min_port_count max_port_count =
      bounded_or
        (size_default (infer_collection_size_parameter collection_name is_input parameters)
          parameters)
        current_count min_port_count max_port_count

  unfoldable pub infer_collection_metadata :
      String → String → Bool → List (BlockParameterDescriptor D) → ℕ → CollectionMetadata
  unfolding infer_collection_size_parameter infer_collection_element_type port_count_lower_bound
      port_count_upper_bound infer_collection_render_port_count
  infer_collection_metadata collection_name block_id is_input parameters current_count =
      let size_parameter = infer_collection_size_parameter collection_name is_input parameters in
      let min_port_count =
        bound_or port_count_lower_bound size_parameter
          (some (if nat_eq current_count 0 then pos 0 else pos 1)) in
      let max_port_count = bound_or port_count_upper_bound size_parameter (some (negsuc 0)) in
      record {
        cardinality_kind = dynamic;
        current_port_count = some (to_int (pos current_count));
        render_port_count =
            infer_collection_render_port_count collection_name is_input parameters current_count
              min_port_count max_port_count;
        min_port_count = min_port_count;
        max_port_count = max_port_count;
        size_parameter = size_parameter;
        handle_name_template = some (collection_name <> "#${index}");
        element_type = infer_collection_element_type block_id;
      }

  unfoldable pub to_port_descriptor :
      DynamicPortOrCollection
      → String
      → List (BlockParameterDescriptor D)
      → Bool
      → BlockPortDescriptor
  unfolding infer_collection_metadata
  to_port_descriptor (single port) block_id parameters is_input = record {
    name = port.name;
    type = port.type_name;
    cardinality_kind = fixed;
    current_port_count = some (pos 1);
    render_port_count = some (pos 1);
    min_port_count = some (pos 1);
    max_port_count = some (pos 1);
    size_parameter = none;
    handle_name_template = none;
  }
  to_port_descriptor (collection name ports) block_id parameters is_input =
      let metadata = infer_collection_metadata name block_id is_input parameters (length ports) in
      record {
        name = name;
        type = type_or (front_type ports) metadata.element_type;
        cardinality_kind = metadata.cardinality_kind;
        current_port_count = metadata.current_port_count;
        render_port_count = metadata.render_port_count;
        min_port_count = metadata.min_port_count;
        max_port_count = metadata.max_port_count;
        size_parameter = metadata.size_parameter;
        handle_name_template = metadata.handle_name_template;
      }

  unfoldable pub to_ports :
      List DynamicPortOrCollection
      → String
      → List (BlockParameterDescriptor D)
      → Bool
      → List BlockPortDescriptor
  unfolding to_port_descriptor
  to_ports ports block_id parameters is_input =
      map (λ port. to_port_descriptor port block_id parameters is_input) ports

elements :
    infer_collection_element_type "gr::Add<std::complex<float>, 2>" ≡ some "std::complex<float>"
unfolding infer_collection_element_type
elements = refl
