-- ===== src/Streams/Blocks.antt =====
-- Blocks of a graph and their stream intent (src/domain/session_stream.cpp).
use gnuradio4_control_plane.Prelude.{
  String, Bool, true, false, ◌&&◌, ◌||◌, not, Option, none, some, List, [], ◌∷◌, if◌then◌else◌,
  ◌==◌, ◌<>◌, Assoc, find, insert, contains, has_value,
}
use gnuradio4_control_plane.Pmt.{Pmt}

abbrev pub is_empty : String → Bool
is_empty s = s == ""

-- `value.has_value() && !value->empty()`.
abbrev pub is_filled : Option String → Bool
is_filled none = false
is_filled (some s) = not (is_empty s)

abbrev pub value_or : Option String → String → String
value_or none s = s
value_or (some t) s = t

unfoldable pub transport_supported : String → Bool
transport_supported transport =
    transport == "http_snapshot" || transport == "http_poll" || transport == "websocket"

unfoldable pub make_stream_path : String → String → String → String
make_stream_path session_id stream_id transport =
    if transport == "websocket"
    then "/sessions/" <> session_id <> "/streams/" <> stream_id <> "/ws"
    else "/sessions/" <> session_id <> "/streams/" <> stream_id <> "/http"

pub record AuthoredStreamIntent : Type 0 where
  pub declared : Bool
  pub stream_id : Option String
  pub transport : Option String
  pub payload_format : Option String

pub record NormalizedBlock : Type 0 where
  pub block_type_id : String
  pub instance_name : String
  pub stream : AuthoredStreamIntent

module _ (pmt : Pmt) where
  open pmt use {Value, as_string, as_map}

  -- The text under a key, if there is one: `find`, then `value_to_string`.
  unfoldable pub parameter_string : Assoc Value → String → Option String
  parameter_string parameters key = elim (find key parameters) [
    | none ↦ none
    | some value ↦ as_string value
  ]

  -- The map under a key, if there is one: `find`, then `get_if<gr::property_map>`.
  unfoldable pub parameter_map : Assoc Value → String → Option (Assoc Value)
  parameter_map parameters key = elim (find key parameters) [
    | none ↦ none
    | some value ↦ as_map value
  ]

  abbrev declared_intent : Option (Assoc Value) → AuthoredStreamIntent
  declared_intent none = record {
    declared = true;
    stream_id = none;
    transport = none;
    payload_format = none;
  }
  declared_intent (some stream) = record {
    declared = true;
    stream_id = parameter_string stream "id";
    transport = parameter_string stream "transport";
    payload_format = parameter_string stream "payload_format";
  }

  abbrev flat_intent : Option String → Option String → Option String → AuthoredStreamIntent
  flat_intent stream_id transport payload_format = record {
    declared = has_value stream_id || has_value transport || has_value payload_format;
    stream_id = stream_id;
    transport = transport;
    payload_format = payload_format;
  }

  unfoldable pub normalize_stream_intent : Assoc Value → AuthoredStreamIntent
  unfolding parameter_string
  normalize_stream_intent parameters = elim (find "stream" parameters) [
    | some value ↦ declared_intent (as_map value)
    | none ↦
        flat_intent (parameter_string parameters "stream_id")
          (parameter_string parameters "transport") (parameter_string parameters "payload_format")
  ]

  -- The first key that holds a text.
  unfoldable pub first_string : List String → Assoc Value → Option String
  unfolding parameter_string
  first_string [] block = none
  first_string (key ∷ keys) block = elim (parameter_string block key) [
    | none ↦ first_string keys block
    | some s ↦ some s
  ]

  -- Adds the entries of `raw` whose keys are not there yet.
  unfoldable pub add_missing : Assoc Value → Assoc Value → Assoc Value
  add_missing [] parameters = parameters
  add_missing ((key, value) ∷ raw) parameters =
      add_missing raw (if contains key parameters then parameters else insert key value parameters)

  abbrev or_empty : Option (Assoc Value) → Assoc Value
  or_empty none = []
  or_empty (some m) = m

  -- `parameters`, completed by `raw_parameters`.
  unfoldable pub merged_parameters : Assoc Value → Assoc Value
  unfolding parameter_map add_missing
  merged_parameters block =
      add_missing (or_empty (parameter_map block "raw_parameters"))
        (or_empty (parameter_map block "parameters"))

  -- `for (candidate : {"instance_name", "name"})`: the loop leaves at the first text that is not
  -- empty, and keeps the last value that it has read.
  unfoldable pub candidate_name : List String → Assoc Value → Option String → Option String
  candidate_name [] block name = name
  candidate_name (key ∷ keys) block name = elim (find key block) [
    | none ↦ candidate_name keys block name
    | some value ↦
        if is_filled (as_string value)
        then as_string value
        else candidate_name keys block (as_string value)
  ]

  abbrev studio_or : Assoc Value → Option String → Option String
  studio_or block name =
      let studio_node_id = parameter_string block "id" in
      if not (is_filled name) && is_filled studio_node_id && contains "block" block
      then studio_node_id
      else name

  abbrev candidate_or : Assoc Value → Option String → Option String
  candidate_or block name =
      if is_filled name then name else candidate_name ("instance_name" ∷ "name" ∷ []) block name

  unfoldable pub instance_name_of : Assoc Value → Option String
  unfolding parameter_string merged_parameters candidate_name
  instance_name_of block =
      candidate_or block (studio_or block (parameter_string (merged_parameters block) "name"))

  abbrev normalized : Assoc Value → String → Option NormalizedBlock
  normalized block block_type_id =
      if is_empty block_type_id
      then none
      else some (record {
        block_type_id = block_type_id;
        instance_name = value_or (instance_name_of block) "";
        stream = normalize_stream_intent (merged_parameters block);
      })

  abbrev normalized_as : Assoc Value → Option String → Option NormalizedBlock
  normalized_as block none = none
  normalized_as block (some block_type_id) = normalized block block_type_id

  unfoldable pub normalize_stream_block : Assoc Value → Option NormalizedBlock
  unfolding first_string instance_name_of normalize_stream_intent merged_parameters
  normalize_stream_block block =
      normalized_as block (first_string ("block" ∷ "id" ∷ "block_type" ∷ []) block)
