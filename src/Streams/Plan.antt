-- ===== src/Streams/Plan.antt =====
-- The stream plan of a session, and the check of its contract (src/domain/session_stream.cpp). A
-- `std::set` of ids is the list of its members.
pub mod Contract
pub mod Validity
use gnuradio4_control_plane.Prelude.{
  String, Bool, true, false, ◌&&◌, ◌||◌, not, Option, none, some, List, [], ◌∷◌, ◌++◌,
  if◌then◌else◌, ◌==◌, ◌<>◌, Assoc, find, map,
}
use gnuradio4_control_plane.Pmt.{Pmt}
use gnuradio4_control_plane.Domain.Session.{Session}
use gnuradio4_control_plane.Domain.Stream.{RuntimeStreamBindingPlan, StreamRuntimePlan}
use gnuradio4_control_plane.Streams.Blocks.{
  is_empty, is_filled, value_or, transport_supported, make_stream_path, AuthoredStreamIntent,
  NormalizedBlock, normalize_stream_block,
}

-- `std::set::contains`.
unfoldable pub member : String → List String → Bool
member id [] = false
member id (seen ∷ ids) = seen == id || member id ids

-- The authored id, or the block's instance name.
unfoldable pub stream_id_of : NormalizedBlock → String
stream_id_of block =
    if is_filled block.stream.stream_id
    then value_or block.stream.stream_id ""
    else block.instance_name

-- The error, if any, and the ids that are seen afterwards.
unfoldable pub validate_stream_block : NormalizedBlock → List String → Option String × List String
unfolding stream_id_of transport_supported member
validate_stream_block block seen =
    let stream_id = stream_id_of block in
    if not block.stream.declared
    then (none, seen)
    else if is_empty block.instance_name
    then (some ("managed stream block is missing instance name: " <> block.block_type_id), seen)
    else if is_empty stream_id
    then (some ("managed stream id is missing: " <> block.block_type_id), seen)
    else if not (is_filled block.stream.transport)
    then (some ("managed stream block is missing transport: " <> block.block_type_id), seen)
    else if not (transport_supported (value_or block.stream.transport ""))
    then (
      some ("managed stream transport is not supported: " <> value_or block.stream.transport ""),
      seen,
    )
    else if not (is_filled block.stream.payload_format)
    then (some ("managed stream block is missing payload_format: " <> block.block_type_id), seen)
    else if member stream_id seen
    then (some ("managed stream id is duplicated: " <> stream_id), seen)
    else (none, stream_id ∷ seen)

-- The plan of one block that has passed the check.
unfoldable pub binding_plan : String → NormalizedBlock → RuntimeStreamBindingPlan
unfolding stream_id_of make_stream_path
binding_plan session_id block = record {
  stream_id = stream_id_of block;
  block_instance_name = block.instance_name;
  transport = value_or block.stream.transport "";
  payload_format = value_or block.stream.payload_format "";
  path = make_stream_path session_id (stream_id_of block) (value_or block.stream.transport "");
  ready = true;
}

-- The loop of `derive_stream_runtime_plan` over the declared blocks.
unfoldable pub plan_streams :
    String
    → List NormalizedBlock
    → List String
    → List RuntimeStreamBindingPlan
    → Option (List RuntimeStreamBindingPlan)
plan_streams session_id [] seen streams = some streams
plan_streams session_id (block ∷ blocks) seen streams =
    let rest =
      plan_streams session_id blocks (validate_stream_block block seen).1
        (streams ++ binding_plan session_id block ∷ []) in
    elim (validate_stream_block block seen).0 [ some error ↦ none | none ↦ rest ]

-- The loop of `validate_stream_runtime_contract`.
unfoldable pub contract_error : List NormalizedBlock → List String → Option String
contract_error [] seen = none
contract_error (block ∷ blocks) seen =
    let rest = contract_error blocks (validate_stream_block block seen).1 in
    elim (validate_stream_block block seen).0 [ some error ↦ some error | none ↦ rest ]

abbrev pub nonempty_plan : List RuntimeStreamBindingPlan → Option StreamRuntimePlan
nonempty_plan [] = none
nonempty_plan (stream ∷ streams) = some (record { streams = stream ∷ streams })

abbrev pub keep_declared : Option NormalizedBlock → List NormalizedBlock → List NormalizedBlock
keep_declared none blocks = blocks
keep_declared (some block) blocks = if block.stream.declared then block ∷ blocks else blocks

abbrev pub plan_or : Option (List RuntimeStreamBindingPlan) → Option StreamRuntimePlan
plan_or none = none
plan_or (some streams) = nonempty_plan streams

module _ (pmt : Pmt) where
  open pmt use {Value, as_map, as_tensor, deserialize}

  abbrev pub normalized_or : Option (Assoc Value) → Option NormalizedBlock
  normalized_or none = none
  normalized_or (some block) = normalize_stream_block pmt block

  -- The blocks that both loops reach: maps that have a type and declare a stream.
  unfoldable pub declared_blocks : List Value → List NormalizedBlock
  unfolding normalize_stream_block
  declared_blocks [] = []
  declared_blocks (value ∷ values) =
      keep_declared (normalized_or (as_map value)) (declared_blocks values)

  abbrev pub tensor_under : String → Assoc Value → Option (List Value)
  tensor_under key m = elim (find key m) [ none ↦ none | some value ↦ as_tensor value ]

  -- The blocks of a session's graph; `none` where the content has no list of blocks.
  unfoldable pub session_blocks : Session → Option (List NormalizedBlock)
  unfolding declared_blocks
  session_blocks session = elim (deserialize session.grc_content) [
    | none ↦ none
    | some root ↦ elim (tensor_under "blocks" root) [
      | none ↦ none
      | some values ↦ some (declared_blocks values)
    ]
  ]

  unfoldable pub derive_stream_runtime_plan : Session → Option StreamRuntimePlan
  derive_stream_runtime_plan session = elim (session_blocks session) [
    | none ↦ none
    | some blocks ↦ plan_or (plan_streams session.id blocks [] [])
  ]

  unfoldable pub validate_stream_runtime_contract : Session → Option String
  validate_stream_runtime_contract session = elim (session_blocks session) [
    | none ↦ none
    | some blocks ↦ contract_error blocks []
  ]

  unfoldable pub derive_stream_runtime_plans : List Session → List (Option StreamRuntimePlan)
  derive_stream_runtime_plans sessions = map derive_stream_runtime_plan sessions
