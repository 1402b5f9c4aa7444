-- ===== src/Tests/Graph.antt =====
-- Port tokens and names of blocks on small inputs.
use gnuradio4_control_plane.Prelude.{◌≡◌, refl, inr, some, [], ◌∷◌, Assoc, find, insert}
use gnuradio4_control_plane.Errors.{ok}
use gnuradio4_control_plane.Streams.Blocks.{
  merged_parameters, add_missing, parameter_map, parameter_string, instance_name_of,
}
use gnuradio4_control_plane.Runtime.Graph.{managed_name, normalize_block}
use gnuradio4_control_plane.Runtime.Graph.Ports.{port_text, normalize_port, all_digits}
use gnuradio4_control_plane.Runtime.Graph.Tokens.{in_read}
use gnuradio4_control_plane.Runtime.Graph.Names.{
  NodeNamed, managed_name-node, managed_name-instance_name,
}
use gnuradio4_control_plane.Tests.Values.{Node, text, nodes}

-- The port of "in1" stays a text.
in_port : normalize_port "in1" ≡ ok (port_text "in1")
unfolding all_digits
in_port = in_read "in1" (b'1' ∷ []) refl refl

-- A block as GNU Radio Studio writes it, and one with its type under "id".
abbrev scope_block : Assoc Node
scope_block = ("block", text "Sink") ∷ ("id", text "scope") ∷ []

abbrev typed_block : Assoc Node
typed_block = ("id", text "Sink") ∷ ("name", text "scope") ∷ []

scope-NodeNamed : NodeNamed nodes scope_block "scope"
unfolding merged_parameters parameter_map add_missing parameter_string find insert
scope-NodeNamed = (refl, refl, refl, refl)

managed_name-instance_name_example :
    managed_name nodes (normalize_block nodes scope_block) ≡ instance_name_of nodes scope_block
managed_name-instance_name_example =
    managed_name-instance_name nodes scope_block (inr ("scope", scope-NodeNamed))

-- Its type, and not its name, is the name that the runtime has for it.
typed_name : managed_name nodes (normalize_block nodes typed_block) ≡ some "Sink"
unfolding merged_parameters parameter_map add_missing parameter_string find insert
typed_name = managed_name-node nodes typed_block "Sink" refl refl refl
