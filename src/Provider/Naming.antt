-- ===== src/Provider/Naming.antt =====
-- The name, the category and the summary of a block in
-- src/catalog/gr4_block_catalog_provider.cpp, from its id and its meta information.
use gnuradio4_control_plane.Prelude.{
  ℕ, String, Bool, not, ◌&&◌, ◌||◌, Option, none, some, List, [], ◌∷◌, Assoc, find, if◌then◌else◌,
  ◌==◌, ◌<>◌, ltb, nat_eq, length, find?, has_value, ◌≡◌, refl,
}
use gnuradio4_control_plane.Provider.Model.{
  Values, Visited, string, view, string_tensor, value_tensor, BlockModel,
}
use gnuradio4_control_plane.Provider.Model as Model
use gnuradio4_control_plane.Provider.Text.{
  to_title_case, behind_last, double_colon_tokens, filled_tokens, joined_from,
}

abbrev or_whole : String → Option String → String
or_whole s none = s
or_whole s (some rest) = rest

unfoldable pub derive_name_from_id : String → String
unfolding to_title_case behind_last
derive_name_from_id id =
    to_title_case
      (or_whole id (behind_last (λ c. nat_eq c b'.' || nat_eq c b'/' || nat_eq c b':') id))

unfoldable pub has_any : (ℕ → Bool) → String → Bool
unfolding behind_last
has_any p s = has_value (behind_last p s)

unfoldable pub is_sane_explicit_category : String → Bool
unfolding has_any
is_sane_explicit_category value =
    not (value == "")
    && not (
        has_any
          (λ c. nat_eq c b'<' || nat_eq c b'>' || nat_eq c b'(' || nat_eq c b')' || nat_eq c b',')
          value)

-- `segments.erase(segments.begin())` of a leading "gr".
abbrev pub without_gr : List String → List String
without_gr [] = []
without_gr (s ∷ segments) = if s == "gr" then segments else s ∷ segments

-- `segments.pop_back()`.
unfoldable pub without_last : List String → List String
without_last [] = []
without_last (s ∷ []) = []
without_last (s ∷ t ∷ segments) = s ∷ without_last (t ∷ segments)

unfoldable pub category_of_segments : List String → String
unfolding without_last joined_from
category_of_segments segments =
    if ltb (length segments) 2
    then "Uncategorized"
    else let category = joined_from "/" "" (without_last segments) in
      if category == "" then "Uncategorized" else category

unfoldable pub derive_category_from_block_id : String → String
unfolding category_of_segments double_colon_tokens filled_tokens
derive_category_from_block_id id =
    category_of_segments (without_gr (filled_tokens (double_colon_tokens id)))

module _ (values : Values) where
  open values use {Value, Double, visit}

  abbrev string_of : Visited Double Value → Option String
  string_of (string s) = some s
  string_of (view s) = some s
  string_of _ = none

  unfoldable pub value_to_string : Value → Option String
  value_to_string value = string_of (visit value)

  abbrev map_of : Visited Double Value → Option (Assoc Value)
  map_of (Model.map m) = some m
  map_of _ = none

  unfoldable pub value_to_map : Value → Option (Assoc Value)
  value_to_map value = map_of (visit value)

  -- Without a result as soon as one entry is no text.
  unfoldable pub strings_of : List Value → Option (List String)
  unfolding value_to_string
  strings_of [] = some []
  strings_of (entry ∷ entries) = elim (value_to_string entry) [
    | none ↦ none
    | some s ↦ elim (strings_of entries) [ none ↦ none | some rest ↦ some (s ∷ rest) ]
  ]

  abbrev list_of : Visited Double Value → Option (List String)
  unfolding strings_of
  list_of (string_tensor l) = some l
  list_of (value_tensor l) = strings_of l
  list_of (view s) = some (s ∷ [])
  list_of _ = none

  unfoldable pub value_to_string_list : Value → Option (List String)
  unfolding strings_of
  value_to_string_list value = list_of (visit value)

  abbrev pub read_if : {A : Type 0} → (Value → Option A) → Option Value → Option A
  read_if read none = none
  read_if read (some value) = read value

  -- `std::string(parameter_name) + std::string(suffix)` is the key.
  unfoldable pub parameter_meta_string : Assoc Value → String → String → Option String
  unfolding value_to_string
  parameter_meta_string meta parameter_name suffix =
      read_if value_to_string (find (parameter_name <> suffix) meta)

  unfoldable pub parameter_meta_string_list : Assoc Value → String → String → Option (List String)
  unfolding value_to_string_list
  parameter_meta_string_list meta parameter_name suffix =
      read_if value_to_string_list (find (parameter_name <> suffix) meta)

  -- The first of two texts that is there and not empty.
  abbrev pub text_or : Option String → String → String
  text_or none otherwise = otherwise
  text_or (some s) otherwise = if s == "" then otherwise else s

  unfoldable pub block_summary : BlockModel Value → String
  unfolding parameter_meta_string
  block_summary block =
      text_or (parameter_meta_string block.meta_information "" "description")
        (text_or (parameter_meta_string block.meta_information "" "Description") "")

  abbrev explicit_or : Option String → String → String
  unfolding is_sane_explicit_category
  explicit_or none id = derive_category_from_block_id id
  explicit_or (some s) id =
      if is_sane_explicit_category s then s else derive_category_from_block_id id

  abbrev category_in : Option (Assoc Value) → Option Value
  category_in none = none
  category_in (some drawable) = find "Category" drawable

  -- A text that is empty is not sane.
  unfoldable pub derive_category_from_metadata : Assoc Value → String → String
  unfolding value_to_map value_to_string derive_category_from_block_id is_sane_explicit_category
  derive_category_from_metadata meta fallback_id =
      explicit_or
        (read_if value_to_string (category_in (read_if value_to_map (find "Drawable" meta))))
        fallback_id

  unfoldable pub block_name : BlockModel Value → String → String
  unfolding derive_name_from_id
  block_name block id =
      if not (block.name == "") && not (block.name == id) && not (has_value (find? block.name "::"))
      then block.name
      else derive_name_from_id id

  -- The empty type name is none.
  unfoldable pub reflected_canonical_type : BlockModel Value → Option String
  reflected_canonical_type block = if block.type_name == "" then none else some block.type_name

named : derive_name_from_id "gr::basic::signal_source" ≡ "Signal Source"
unfolding derive_name_from_id
named = refl

categorized : derive_category_from_block_id "gr::basic::math::Add" ≡ "basic/math"
unfolding derive_category_from_block_id
categorized = refl
