-- ===== src/Provider/Fields.antt =====
-- What src/catalog/gr4_block_catalog_provider.cpp uses of nlohmann/json, on the trees of
-- `Settings.Values`: `find`, `at`, `get` and the loop over the items of a value. The texts of the
-- library's exceptions are a parameter.
use gnuradio4_control_plane.Prelude.{
  ◌-◌, ◌^◌, ◌%◌, String, Bool, Option, none, some, List, [], ◌∷◌, Assoc, if◌then◌else◌, ltb, ◌==◌,
}
use gnuradio4_control_plane.Errors.{Result, ok, err, std_error}
use gnuradio4_control_plane.Results.{◌>>=◌}
use gnuradio4_control_plane.Catalog.{ℤ, pos, negsuc}
use gnuradio4_control_plane.Settings.Values.{
  JsonValue, null, boolean, number_integer, number_unsigned, text, object, array, Members,
  no_member, member, Elements, no_element, element,
}

-- The exceptions: `at` without the key, `at` on a value that is no object, `get` of another kind,
-- and `parse` of a text that is not JSON.
pub data JsonFault : Type 0 where
  no_key : String → JsonFault
  no_object wrong_kind no_json : JsonFault

-- The conversion of a number to `int`.
abbrev pub to_int : ℤ → ℤ
to_int (pos n) = let r = n % 2 ^ 32 in if ltb r (2 ^ 31) then pos r else negsuc (2 ^ 32 - 1 - r)
to_int (negsuc n) = let r = n % 2 ^ 32 in if ltb r (2 ^ 31) then negsuc r else pos (2 ^ 32 - 1 - r)

module _ {D : Type 0} where
  -- The value of a key.
  unfoldable pub lookup : String → Members D → Option (JsonValue D)
  lookup key no_member = none
  lookup key (member k v m) = if k == key then some v else lookup key m

  abbrev pub find_in : String → JsonValue D → Option (JsonValue D)
  find_in key (object m) = lookup key m
  find_in key _ = none

  -- `value[key] = …` for a value that is there.
  abbrev pub optional : {A : Type 0} → String → (A → JsonValue D) → Option A → Members D → Members D
  optional key encode none m = m
  optional key encode (some a) m = member key (encode a) m

  -- `is_string` and `get`, and so on.
  abbrev pub as_text : JsonValue D → Option String
  as_text (text s) = some s
  as_text _ = none

  abbrev pub as_int : JsonValue D → Option ℤ
  as_int (number_integer z) = some (to_int z)
  as_int (number_unsigned n) = some (to_int (pos n))
  as_int _ = none

  abbrev pub as_bool : JsonValue D → Option Bool
  as_bool (boolean b) = some b
  as_bool _ = none

  -- The loop `for (const auto& item : value)`: one round for a value that is no container.
  abbrev values : Members D → List (JsonValue D)
  values no_member = []
  values (member k v m) = v ∷ values m

  abbrev pub elements : Elements D → List (JsonValue D)
  elements no_element = []
  elements (element v xs) = v ∷ elements xs

  abbrev pub items : JsonValue D → List (JsonValue D)
  items (array xs) = elements xs
  items (object m) = values m
  items null = []
  items v = v ∷ []

  -- `if (const auto it = value.find(key); it != value.end() && …)`.
  abbrev pub view : {A : Type 0} → (JsonValue D → Option A) → Option (JsonValue D) → Option A
  view read none = none
  view read (some v) = read v

module _ (fault_text : JsonFault → String) where
  abbrev pub fault : {A : Type 0} → JsonFault → Result A
  fault f = err (std_error (fault_text f))

  abbrev pub value_of : {A : Type 0} → JsonFault → Option A → Result A
  value_of f none = fault f
  value_of f (some a) = ok a

module _ {D : Type 0} (fault_text : JsonFault → String) where
  abbrev pub at : String → JsonValue D → Result (JsonValue D)
  at key (object m) = value_of fault_text (no_key key) (lookup key m)
  at key _ = fault fault_text no_object

  abbrev pub get_text : JsonValue D → Result String
  get_text v = value_of fault_text wrong_kind (as_text v)

  abbrev pub get_bool : JsonValue D → Result Bool
  get_bool v = value_of fault_text wrong_kind (as_bool v)

  -- `get<std::vector<std::string>>()` of an array.
  unfoldable pub get_texts : Elements D → Result (List String)
  get_texts no_element = ok []
  get_texts (element v xs) = do s ← get_text v; rest ← get_texts xs; ok (s ∷ rest)

  -- `get<std::map<std::string, std::string>>()` of an object.
  unfoldable pub get_labels : Members D → Result (Assoc String)
  get_labels no_member = ok []
  get_labels (member k v m) = do s ← get_text v; rest ← get_labels m; ok ((k, s) ∷ rest)
