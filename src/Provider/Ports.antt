-- ===== src/Provider/Ports.antt =====
-- The parameter of src/catalog/gr4_block_catalog_provider.cpp that counts the ports of a collection: its
-- name is inferred from the collection's.
use gnuradio4_control_plane.Prelude.{
  String, Bool, true, false, ◌||◌, Option, none, some, List, [], ◌∷◌, ◌++◌, if◌then◌else◌, ◌==◌,
  ◌<>◌, ltb,
}
use gnuradio4_control_plane.Streams.Plan.{member}
use gnuradio4_control_plane.Catalog.{
  ℤ, pos, negsuc, BlockParameterDefault, int_default, BlockParameterDescriptor,
}
use gnuradio4_control_plane.Provider.Text.{without_suffix}

-- `<` of `int`.
unfoldable pub ltb_ℤ : ℤ → ℤ → Bool
ltb_ℤ (pos m) (pos n) = ltb m n
ltb_ℤ (pos m) (negsuc n) = false
ltb_ℤ (negsuc m) (pos n) = true
ltb_ℤ (negsuc m) (negsuc n) = ltb n m

abbrev pub is_port_count : String → Bool
is_port_count name = name == "n_inputs" || name == "n_outputs" || name == "n_ports"

unfoldable pub port_count_lower_bound : String → Option ℤ
port_count_lower_bound name = if is_port_count name then some (pos 1) else none

unfoldable pub port_count_upper_bound : String → Option ℤ
port_count_upper_bound name = if is_port_count name then some (pos 32) else none

abbrev stem_or : String → Option String → String
stem_or otherwise none = otherwise
stem_or otherwise (some stem) = if stem == "" then otherwise else stem

abbrev plus : String → Option String → Option String
plus suffix none = none
plus suffix (some stem) = if stem == "" then none else some (stem <> suffix)

abbrev or_given : String → Option String → String
or_given otherwise none = otherwise
or_given otherwise (some s) = s

-- `base.size() > 3 && base.ends_with("ies")`: what is before the suffix is not empty.
unfoldable pub singular : String → String
unfolding without_suffix
singular base =
    or_given (stem_or base (without_suffix "s" base)) (plus "y" (without_suffix "ies" base))

abbrev ends_with : String → String → Bool
unfolding without_suffix
ends_with base suffix = elim (without_suffix suffix base) [ none ↦ false | some stem ↦ true ]

unfoldable pub plural : String → String
unfolding without_suffix
plural base =
    if ends_with base "s"
    then base
    else or_given (base <> "s") (plus "ies" (without_suffix "y" base))

abbrev patterns : String → List String
patterns alias =
    ("n_" <> alias) ∷ ("num_" <> alias) ∷ alias ∷ (alias <> "_count") ∷ ("count_" <> alias) ∷ []

unfoldable pub candidates : String → Bool → List String
unfolding singular plural
candidates base is_input =
    patterns base
    ++ (if singular base == base then [] else patterns (singular base))
    ++ (if plural base == base || plural base == singular base then [] else patterns (plural base))
    ++ patterns (if is_input then "in" else "out")
    ++ patterns (if is_input then "input" else "output")
    ++ patterns (if is_input then "inputs" else "outputs")

unfoldable pub unique_from : List String → List String → List String
unique_from seen [] = []
unique_from seen (candidate ∷ rest) = elim (member candidate seen) [
  | true ↦ unique_from seen rest
  | false ↦ candidate ∷ unique_from (candidate ∷ seen) rest
]

module _ {D : Type 0} where
  -- `std::find_if` by the name.
  unfoldable pub parameter_named :
      String → List (BlockParameterDescriptor D) → Option (BlockParameterDescriptor D)
  parameter_named name [] = none
  parameter_named name (parameter ∷ parameters) =
      let rest = parameter_named name parameters in
      if parameter.name == name then some parameter else rest

  unfoldable pub first_matching : List String → List (BlockParameterDescriptor D) → Option String
  unfolding parameter_named
  first_matching [] parameters = none
  first_matching (candidate ∷ rest) parameters =
      let later = first_matching rest parameters in
      elim (parameter_named candidate parameters) [ none ↦ later | some _ ↦ some candidate ]

  unfoldable pub infer_collection_size_parameter :
      String → Bool → List (BlockParameterDescriptor D) → Option String
  unfolding candidates unique_from first_matching
  infer_collection_size_parameter collection_name is_input parameters =
      first_matching (unique_from [] (candidates collection_name is_input)) parameters

  abbrev pub int_in : BlockParameterDefault D → Option ℤ
  int_in (int_default z) = some z
  int_in _ = none

  unfoldable pub parameter_default_int : BlockParameterDescriptor D → Option ℤ
  parameter_default_int parameter = int_in parameter.default_value

  abbrev default_in : Option (BlockParameterDescriptor D) → Option ℤ
  unfolding parameter_default_int
  default_in none = none
  default_in (some parameter) = parameter_default_int parameter

  abbrev pub size_default : Option String → List (BlockParameterDescriptor D) → Option ℤ
  unfolding parameter_named parameter_default_int
  size_default none parameters = none
  size_default (some name) parameters = default_in (parameter_named name parameters)
