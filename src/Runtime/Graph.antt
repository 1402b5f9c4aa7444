-- ===== src/Runtime/Graph.antt =====
-- `normalize_graph_content` and its helpers of src/runtime/gr4_runtime_manager.cpp: the graph of a
-- session as GNU Radio reads it, with the endpoints of the managed streams.
pub mod Ports
pub mod Names
pub mod Tokens
use gnuradio4_control_plane.Prelude.{
  ℕ, suc, String, Bool, true, false, not, ◌&&◌, ◌||◌, Option, none, some, List, [], ◌∷◌,
  if◌then◌else◌, ◌==◌, Assoc, find, insert, contains, nat_eq, length, has_value,
}
use gnuradio4_control_plane.Errors.{Result, ok, err, std_error}
use gnuradio4_control_plane.Results.{◌>>=◌, ◌>>◌}
use gnuradio4_control_plane.Pmt.{Pmt}
use gnuradio4_control_plane.Domain.Stream.{RuntimeStreamBinding}
use gnuradio4_control_plane.Streams.Blocks.{
  is_filled, value_or, parameter_string, parameter_map, merged_parameters,
}
use gnuradio4_control_plane.Streams.Plan.{member}
use gnuradio4_control_plane.Runtime.Graph.Ports.{PortToken, port_number, port_text, normalize_port}

-- A stream id is added to a set.
abbrev pub add_id : String → List String → List String
add_id id ids = if member id ids then ids else id ∷ ids

module _ (pmt : Pmt) where
  open pmt use {
    Value, as_string, as_map, as_tensor, of_string, of_map, of_tensor, of_int, same, deserialize,
    serialize,
  }

  abbrev map_or_empty : Option (Assoc Value) → Assoc Value
  map_or_empty none = []
  map_or_empty (some m) = m

  -- `block["id"]` is set to the text under a key, if it is not empty.
  abbrev set_id : Option String → Assoc Value → Assoc Value
  set_id block_type block =
      if is_filled block_type then insert "id" (of_string (value_or block_type "")) block else block

  -- `for (candidate_key : {"instance_name", "name"})`: the first text that is not empty.
  unfoldable pub first_filled : List String → Assoc Value → Option String
  unfolding parameter_string
  first_filled [] block = none
  first_filled (key ∷ keys) block =
      if is_filled (parameter_string pmt block key)
      then parameter_string pmt block key
      else first_filled keys block

  abbrev named : Option String → Assoc Value → Assoc Value
  named none parameters = parameters
  named (some name) parameters =
      if contains "name" parameters then parameters else insert "name" (of_string name) parameters

  abbrev filled_only : Option String → Option String
  filled_only name = if is_filled name then name else none

  -- `needs_parameters_write` is set only where there are parameters then.
  unfoldable pub normalize_block : Assoc Value → Assoc Value
  unfolding parameter_string parameter_map merged_parameters first_filled
  normalize_block block =
      let studio_node_id = parameter_string pmt block "id" in
      let typed = set_id (parameter_string pmt block "block") block in
      let identified =
        if contains "id" typed
        then typed
        else set_id (parameter_string pmt typed "block_type") typed in
      let merged = merged_parameters pmt identified in
      let by_node = named (filled_only studio_node_id) merged in
      let parameters = named (first_filled ("instance_name" ∷ "name" ∷ []) identified) by_node in
      if nat_eq (length parameters) 0
      then identified
      else insert "parameters" (of_map parameters) identified

  abbrev value_of_token : PortToken → Value
  value_of_token (port_number n) = of_int n
  value_of_token (port_text token) = of_string token

  abbrev set_token : Value → Option String → Result (Bool × Value)
  set_token value none = ok (false, value)
  set_token value (some token) = do
    port ← normalize_port token
    ok (not (same (value_of_token port) value), value_of_token port)

  -- The connection as a sequence: the tokens at the positions 1 and 3.
  unfoldable pub normalize_sequence : List Value → Result (Bool × List Value)
  normalize_sequence (a ∷ p ∷ b ∷ q ∷ rest) = do
    source ← set_token p (as_string p)
    destination ← set_token q (as_string q)
    ok (source.0 || destination.0, a ∷ source.1 ∷ b ∷ destination.1 ∷ rest)
  normalize_sequence (a ∷ p ∷ b ∷ []) = ok (false, a ∷ p ∷ b ∷ [])
  normalize_sequence (a ∷ p ∷ []) = ok (false, a ∷ p ∷ [])
  normalize_sequence (a ∷ []) = ok (false, a ∷ [])
  normalize_sequence [] = ok (false, [])

  -- The connection as a map, with its four texts.
  abbrev sequence_of :
      Value → Option String → Option String → Option String → Option String → Result (Bool × Value)
  sequence_of connection (some source_block) (some source_port) (some dest_block) (some dest_port) =
      do
        source ← normalize_port source_port
        destination ← normalize_port dest_port
        ok (
          true,
          of_tensor (
              of_string source_block
              ∷ value_of_token source
              ∷ of_string dest_block
              ∷ value_of_token destination
              ∷ []),
        )
  sequence_of connection _ _ _ _ = ok (false, connection)

  abbrev normalize_map : Value → Option (Assoc Value) → Result (Bool × Value)
  normalize_map connection none = ok (false, connection)
  normalize_map connection (some m) =
      sequence_of connection (parameter_string pmt m "source_block")
        (parameter_string pmt m "source_port_token") (parameter_string pmt m "dest_block")
        (parameter_string pmt m "dest_port_token")

  abbrev normalize_as : Value → Option (List Value) → Result (Bool × Value)
  normalize_as connection none = normalize_map connection (as_map connection)
  normalize_as connection (some values) = do r ← normalize_sequence values; ok (r.0, of_tensor r.1)

  unfoldable pub normalize_connection : Value → Result (Bool × Value)
  unfolding normalize_sequence parameter_string
  normalize_connection connection = normalize_as connection (as_tensor connection)

  -- The name by which a block is given an endpoint.
  unfoldable pub managed_name : Assoc Value → Option String
  unfolding parameter_string parameter_map
  managed_name block =
      let name =
        parameter_string pmt (map_or_empty (parameter_map pmt block "parameters")) "name" in
      if is_filled name
      then name
      else if has_value (find "instance_name" block)
      then parameter_string pmt block "instance_name"
      else name

  unfoldable pub binding_of : String → List RuntimeStreamBinding → Option RuntimeStreamBinding
  binding_of name [] = none
  binding_of name (binding ∷ bindings) =
      if binding.plan.block_instance_name == name then some binding else binding_of name bindings

  abbrev with_endpoint : RuntimeStreamBinding → Assoc Value → Assoc Value
  with_endpoint binding block =
      insert "parameters"
        (of_map (
          insert "endpoint" (of_string binding.internal.endpoint)
            (map_or_empty (parameter_map pmt block "parameters"))))
        block

  abbrev binding_for : Option String → List RuntimeStreamBinding → Option RuntimeStreamBinding
  binding_for name bindings =
      if is_filled name then binding_of (value_or name "") bindings else none

  abbrev inject_map :
      Value
      → Option (Assoc Value)
      → List RuntimeStreamBinding
      → Option (RuntimeStreamBinding × Value)
  inject_map value none bindings = none
  inject_map value (some block) bindings = elim (binding_for (managed_name block) bindings) [
    | none ↦ none
    | some binding ↦ some (binding, of_map (with_endpoint binding block))
  ]

  -- The loop over the blocks: the blocks, and the set of the stream ids that were injected.
  unfoldable pub inject_blocks : List Value → List RuntimeStreamBinding → List Value × List String
  unfolding binding_of managed_name
  inject_blocks [] bindings = ([], [])
  inject_blocks (value ∷ values) bindings =
      let rest = inject_blocks values bindings in
      elim (inject_map value (as_map value) bindings) [
        | none ↦ (value ∷ rest.0, rest.1)
        | some (binding, injected) ↦ (injected ∷ rest.0, add_id binding.plan.stream_id rest.1)
      ]

  abbrev inject_under :
      Assoc Value → List RuntimeStreamBinding → Option (List Value) → Result (Bool × Assoc Value)
  inject_under root bindings none = ok (false, root)
  inject_under root bindings (some values) =
      let (blocks, ids) = inject_blocks values bindings in
      if nat_eq (length ids) (length bindings)
      then ok (not (nat_eq (length ids) 0), insert "blocks" (of_tensor blocks) root)
      else err (std_error "failed to inject all managed stream bindings into runtime graph")

  abbrev tensor_at : String → Assoc Value → Option (List Value)
  tensor_at key root = elim (find key root) [ none ↦ none | some value ↦ as_tensor value ]

  unfoldable pub inject_stream_bindings :
      Assoc Value → List RuntimeStreamBinding → Result (Bool × Assoc Value)
  unfolding inject_blocks
  inject_stream_bindings root [] = ok (false, root)
  inject_stream_bindings root (binding ∷ bindings) =
      inject_under root (binding ∷ bindings) (tensor_at "blocks" root)

  abbrev normalize_as_block : Value → Option (Assoc Value) → Bool × Value
  normalize_as_block value none = (false, value)
  normalize_as_block value (some block) =
      (not (same (of_map (normalize_block block)) (of_map block)), of_map (normalize_block block))

  unfoldable pub normalize_blocks : List Value → Bool × List Value
  unfolding normalize_block
  normalize_blocks [] = (false, [])
  normalize_blocks (value ∷ values) =
      let (changed, block) = normalize_as_block value (as_map value) in
      let rest = normalize_blocks values in (changed || rest.0, block ∷ rest.1)

  unfoldable pub normalize_connections : List Value → Result (Bool × List Value)
  unfolding normalize_connection
  normalize_connections [] = ok (false, [])
  normalize_connections (value ∷ values) = do
    first ← normalize_connection value
    rest ← normalize_connections values
    ok (first.0 || rest.0, first.1 ∷ rest.1)

  abbrev blocks_under : Assoc Value → Option (List Value) → Bool × Assoc Value
  blocks_under root none = (false, root)
  blocks_under root (some values) =
      let (changed, blocks) = normalize_blocks values in
      (changed, insert "blocks" (of_tensor blocks) root)

  abbrev connections_under : Assoc Value → Option (List Value) → Result (Bool × Assoc Value)
  connections_under root none = ok (false, root)
  connections_under root (some values) = do
    r ← normalize_connections values
    ok (r.0, insert "connections" (of_tensor r.1) root)

  unfoldable pub normalize_graph_content : String → List RuntimeStreamBinding → Result String
  unfolding normalize_blocks normalize_connections inject_stream_bindings
  normalize_graph_content content bindings = elim (deserialize content) [
    | none ↦ ok content
    | some parsed ↦ (do
      let blocks = blocks_under parsed (tensor_at "blocks" parsed)
      connections ← connections_under blocks.1 (tensor_at "connections" blocks.1)
      injected ← inject_stream_bindings connections.1 bindings
      ok (if blocks.0 || connections.0 || injected.0 then serialize injected.1 else content))
  ]
