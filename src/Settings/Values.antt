-- ===== src/Settings/Values.antt =====
-- The conversions of src/app/block_settings_service.cpp between JSON and the property maps of GNU
-- Radio. Both are trees: `JsonValue` has the kinds of `nlohmann::json` (binary data is `other`),
-- `PmtValue` those that the visitor tells apart (tensors and complex numbers are `other`). The keys of
-- an object differ, so that `insert_or_assign` and `result[key]` add entries. A double is of a type
-- `D`.
use gnuradio4_control_plane.Prelude.{ℕ, ◌-◌, ◌^◌, String, Bool, if◌then◌else◌, ltb}
use gnuradio4_control_plane.Errors.{Result, ok, err, validation_error, runtime_error}
use gnuradio4_control_plane.Results.{◌>>=◌}
use gnuradio4_control_plane.Catalog.{ℤ, pos, negsuc}

mutual
  pub data JsonValue (D : Type 0) : Type 0 where
    null : JsonValue D
    boolean : Bool → JsonValue D
    number_integer : ℤ → JsonValue D
    number_unsigned : ℕ → JsonValue D
    number_float : D → JsonValue D
    text : String → JsonValue D
    object : Members D → JsonValue D
    array : Elements D → JsonValue D
    other : JsonValue D

  pub data Members (D : Type 0) : Type 0 where
    no_member : Members D
    member : String → JsonValue D → Members D → Members D

  pub data Elements (D : Type 0) : Type 0 where
    no_element : Elements D
    element : JsonValue D → Elements D → Elements D

mutual
  pub data PmtValue (D : Type 0) : Type 0 where
    monostate : PmtValue D
    truth : Bool → PmtValue D
    signed : ℤ → PmtValue D
    unsigned : ℕ → PmtValue D
    floating : D → PmtValue D
    characters : String → PmtValue D
    mapping : PropertyMap D → PmtValue D
    unsupported : PmtValue D

  pub data PropertyMap (D : Type 0) : Type 0 where
    no_entry : PropertyMap D
    entry : String → PmtValue D → PropertyMap D → PropertyMap D

-- `get<std::int64_t>()` of an unsigned number.
abbrev pub to_int64 : ℕ → ℤ
to_int64 n = if ltb n (2 ^ 63) then pos n else negsuc (2 ^ 64 - 1 - n)

module _ {D : Type 0} where
  -- `is_number_integer` is true of signed and unsigned numbers.
  unfoldable mutual
    pub json_to_pmt_value : JsonValue D → Result (PmtValue D)
    json_to_pmt_value null = ok monostate
    json_to_pmt_value (boolean b) = ok (truth b)
    json_to_pmt_value (number_integer z) = ok (signed z)
    json_to_pmt_value (number_unsigned n) = ok (signed (to_int64 n))
    json_to_pmt_value (number_float d) = ok (floating d)
    json_to_pmt_value (text s) = ok (characters s)
    json_to_pmt_value (object m) = do entries ← members_to_entries m; ok (mapping entries)
    json_to_pmt_value (array xs) = err (validation_error "settings arrays are not supported")
    json_to_pmt_value other = err (validation_error "unsupported JSON value in settings body")

    pub members_to_entries : Members D → Result (PropertyMap D)
    members_to_entries no_member = ok no_entry
    members_to_entries (member key item m) = do
      value ← json_to_pmt_value item
      entries ← members_to_entries m
      ok (entry key value entries)

  unfoldable pub json_to_property_map : JsonValue D → Result (PropertyMap D)
  unfolding members_to_entries
  json_to_property_map (object m) = members_to_entries m
  json_to_property_map _ = err (validation_error "settings body must be a JSON object")

  unfoldable mutual
    pub pmt_value_to_json : PmtValue D → Result (JsonValue D)
    pmt_value_to_json monostate = ok null
    pmt_value_to_json (truth b) = ok (boolean b)
    pmt_value_to_json (signed z) = ok (number_integer z)
    pmt_value_to_json (unsigned n) = ok (number_unsigned n)
    pmt_value_to_json (floating d) = ok (number_float d)
    pmt_value_to_json (characters s) = ok (text s)
    pmt_value_to_json (mapping entries) = do m ← entries_to_members entries; ok (object m)
    pmt_value_to_json unsupported =
        err (runtime_error "runtime returned unsupported settings value")

    pub entries_to_members : PropertyMap D → Result (Members D)
    entries_to_members no_entry = ok no_member
    entries_to_members (entry key value entries) = do
      item ← pmt_value_to_json value
      m ← entries_to_members entries
      ok (member key item m)

  unfoldable pub property_map_to_json : PropertyMap D → Result (JsonValue D)
  unfolding entries_to_members
  property_map_to_json entries = do m ← entries_to_members entries; ok (object m)
