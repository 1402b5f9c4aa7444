-- ===== src/Settings/RoundTrip.antt =====
-- Settings that go to the runtime and come back, through the conversions of
-- src/app/block_settings_service.cpp.
use gnuradio4_control_plane.Prelude.{◌^◌, ◌<◌, ◌≡◌, refl, ap, ◌∙◌, arith}
use gnuradio4_control_plane.Errors.{ok}
use gnuradio4_control_plane.Results.{◌>>=◌}
use gnuradio4_control_plane.Catalog.{pos}
use gnuradio4_control_plane.Settings.Values.{
  JsonValue, null, boolean, number_integer, number_unsigned, number_float, text, object, array,
  other, Members, no_member, member, PmtValue, signed, mapping, PropertyMap, entry,
  json_to_pmt_value, members_to_entries, json_to_property_map, pmt_value_to_json,
  entries_to_members, property_map_to_json,
}

module _ {D : Type 0} where
  -- The values that settings may have: no arrays, and unsigned numbers that are `int64_t` ones.
  unfoldable mutual
    pub Supported : JsonValue D → Type 0
    Supported (number_unsigned n) = n < 2 ^ 63
    Supported (object m) = SupportedMembers m
    Supported (array xs) = ⊥
    Supported other = ⊥
    Supported _ = Unit

    pub SupportedMembers : Members D → Type 0
    SupportedMembers no_member = Unit
    SupportedMembers (member key item m) = Supported item × SupportedMembers m

  -- Unsigned numbers as signed ones, to which nlohmann's `==` finds them equal.
  unfoldable mutual
    pub as_signed : JsonValue D → JsonValue D
    as_signed (number_unsigned n) = number_integer (pos n)
    as_signed (object m) = object (members_as_signed m)
    as_signed j = j

    pub members_as_signed : Members D → Members D
    members_as_signed no_member = no_member
    members_as_signed (member key item m) = member key (as_signed item) (members_as_signed m)

  abbrev Returns : JsonValue D → Type 0
  Returns j =
      (v : PmtValue D) × (json_to_pmt_value j ≡ ok v) × (pmt_value_to_json v ≡ ok (as_signed j))

  abbrev ReturnsAll : Members D → Type 0
  ReturnsAll m =
      (p : PropertyMap D) × (members_to_entries m ≡ ok p)
      × (entries_to_members p ≡ ok (members_as_signed m))

  mutual
    unfolding Supported SupportedMembers as_signed members_as_signed json_to_pmt_value
        members_to_entries pmt_value_to_json entries_to_members

    value-Returns : (j : JsonValue D) → Supported j → Returns j
    value-Returns null h = (_, refl, refl)
    value-Returns (boolean b) h = (_, refl, refl)
    value-Returns (number_integer z) h = (_, refl, refl)
    value-Returns (number_unsigned n) h = (signed (pos n), ground arith, refl)
    value-Returns (number_float d) h = (_, refl, refl)
    value-Returns (text s) h = (_, refl, refl)
    value-Returns (object m) h =
        let (p, e, f) = members-ReturnsAll m h in
        (
          mapping p,
          ap (λ r. r >>= λ entries. ok (mapping entries)) e,
          ap (λ r. r >>= λ m. ok (object m)) f,
        )
    value-Returns (array xs) h = absurd h
    value-Returns other h = absurd h

    members-ReturnsAll : (m : Members D) → SupportedMembers m → ReturnsAll m
    members-ReturnsAll no_member h = (_, refl, refl)
    members-ReturnsAll (member key item m) h =
        let (v, a, b) = value-Returns item h.0 in
        let (p, e, f) = members-ReturnsAll m h.1 in
        (
          entry key v p,
          ap (λ r. r >>= λ value. members_to_entries m >>= λ entries. ok (entry key value entries))
                a
              ∙ ap (λ r. r >>= λ entries. ok (entry key v entries)) e,
          ap (λ r. r >>= λ item. entries_to_members p >>= λ m. ok (member key item m)) b
              ∙ ap (λ r. r >>= λ m. ok (member key (as_signed item) m)) f,
        )

  -- If a JSON object has no arrays and no unsigned number beyond the signed 64-bit range, at any depth,
  -- then its property map is converted back to it, with unsigned numbers as signed ones.
  pub property_map_to_json-json_to_property_map :
      (m : Members D)
      → SupportedMembers m
      → (json_to_property_map (object m) >>= property_map_to_json)
        ≡ ok (object (members_as_signed m))
  unfolding json_to_property_map property_map_to_json
  property_map_to_json-json_to_property_map m h =
      let (p, e, f) = members-ReturnsAll m h in
      ap (λ r. r >>= property_map_to_json) e ∙ ap (λ r. r >>= λ m. ok (object m)) f
