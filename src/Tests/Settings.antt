-- ===== src/Tests/Settings.antt =====
-- Block settings on small inputs.
use gnuradio4_control_plane.Prelude.{ℕ, ◌≡◌, none, some, [], ◌∷◌, find, arith}
use gnuradio4_control_plane.Errors.{ok, err, block_not_found_error, what}
use gnuradio4_control_plane.Results.{◌>>=◌}
use gnuradio4_control_plane.Catalog.{pos}
use gnuradio4_control_plane.Domain.Session.{running}
use gnuradio4_control_plane.Runtime.{RuntimeManager, staged}
use gnuradio4_control_plane.Service.State.{World}
use gnuradio4_control_plane.Settings.{update, get}
use gnuradio4_control_plane.Settings.Values.{
  Members, PropertyMap, no_member, member, text, number_unsigned, number_integer, object, no_entry,
  json_to_property_map, property_map_to_json, json_to_pmt_value, members_to_entries,
  entries_to_members,
}
use gnuradio4_control_plane.Settings.RoundTrip.{
  Supported, SupportedMembers, members_as_signed, property_map_to_json-json_to_property_map,
}
use gnuradio4_control_plane.Settings.Answers.{answer, details}
use gnuradio4_control_plane.Settings.Refusals.{settings_answered}
use gnuradio4_control_plane.Tests.Streams.{graph}

abbrev gain : Members ℕ
gain =
    member "gain" (number_unsigned 7)
      (member "window" (object (member "kind" (text "hann") no_member)) no_member)

gain-SupportedMembers : SupportedMembers gain
unfolding Supported SupportedMembers
gain-SupportedMembers = (omega arith, ((tt, tt), tt))

property_map_to_json-json_to_property_map_example :
    (json_to_property_map (object gain) >>= property_map_to_json)
    ≡ ok (
        object (
          member "gain"
            (number_integer (pos 7))
            (member "window" (object (member "kind" (text "hann") no_member)) no_member)))
unfolding members_as_signed
property_map_to_json-json_to_property_map_example =
    property_map_to_json-json_to_property_map gain gain-SupportedMembers

-- A runtime manager that knows no block.
abbrev blockless : RuntimeManager (PropertyMap ℕ) ℕ
blockless = record {
  prepare = λ session n. (ok tt, n);
  start = λ session n. (ok tt, n);
  stop = λ session n. (ok tt, n);
  destroy = λ session n. (ok tt, n);
  active_stream_plan = λ session n. (ok none, n);
  fetch_http_stream = λ session stream_id n. (err (block_not_found_error stream_id), n);
  resolve_websocket_stream = λ session stream_id n. (err (block_not_found_error stream_id), n);
  set_block_settings = λ session block patch mode n. (err (block_not_found_error block), n);
  get_block_settings = λ session block n. (ok no_entry, n);
}

abbrev one_running : World ℕ
one_running = record {
  repository = ("s", record graph { state = running }) ∷ [];
  phases = [];
  runtime = 0;
}

settings_answered_example :
    (answer (update blockless "s" "amp" (object gain) staged one_running).0
      ≡ some (details 404 "not_found" "amp"))
    × (answer (get blockless "s" "amp" one_running).0 ≡ none)
unfolding find json_to_property_map members_to_entries json_to_pmt_value what property_map_to_json
    entries_to_members
settings_answered_example = settings_answered blockless "s" "amp" (object gain) staged one_running
