-- ===== src/Tests/Values.antt =====
-- Values of GNU Radio as trees, for the tests.
use gnuradio4_control_plane.Prelude.{
  ℕ, String, ◌≡◌, refl, ap, Option, none, some, List, [], ◌∷◌, Assoc, ◌==◌, if◌then◌else◌, Bool,
  true, false, ◌&&◌, nat_eq,
}
use gnuradio4_control_plane.Pmt.{Pmt}

mutual
  pub data Node : Type 0 where
    text : String → Node
    mapping : Entries → Node
    tensor : Items → Node
    number : ℕ → Node

  pub data Entries : Type 0 where
    no_entry : Entries
    entry : String → Node → Entries → Entries

  pub data Items : Type 0 where
    no_item : Items
    item : Node → Items → Items

abbrev entries : Entries → Assoc Node
entries no_entry = []
entries (entry k v m) = (k, v) ∷ entries m

abbrev of_entries : Assoc Node → Entries
of_entries [] = no_entry
of_entries ((k, v) ∷ m) = entry k v (of_entries m)

pub entries-of_entries : (m : Assoc Node) → entries (of_entries m) ≡ m
entries-of_entries [] = refl
entries-of_entries ((k, v) ∷ m) = ap (◌∷◌ (k, v)) (entries-of_entries m)

abbrev of_items : List Node → Items
of_items [] = no_item
of_items (x ∷ xs) = item x (of_items xs)

abbrev items : Items → List Node
items no_item = []
items (item x xs) = x ∷ items xs

pub items-of_items : (l : List Node) → items (of_items l) ≡ l
items-of_items [] = refl
items-of_items (x ∷ xs) = ap (◌∷◌ x) (items-of_items xs)

abbrev text_of : Node → Option String
text_of (text s) = some s
text_of _ = none

abbrev mapping_of : Node → Option (Assoc Node)
mapping_of (mapping m) = some (entries m)
mapping_of _ = none

abbrev tensor_of : Node → Option (List Node)
tensor_of (tensor xs) = some (items xs)
tensor_of _ = none

unfoldable mutual
  pub same_node : Node → Node → Bool
  same_node (text s) (text t) = s == t
  same_node (mapping m) (mapping n) = same_entries m n
  same_node (tensor xs) (tensor ys) = same_items xs ys
  same_node (number m) (number n) = nat_eq m n
  same_node _ _ = false

  same_entries : Entries → Entries → Bool
  same_entries no_entry no_entry = true
  same_entries (entry k v m) (entry j w n) = k == j && same_node v w && same_entries m n
  same_entries _ _ = false

  same_items : Items → Items → Bool
  same_items no_item no_item = true
  same_items (item x xs) (item y ys) = same_node x y && same_items xs ys
  same_items _ _ = false

-- A block with a stream under an id.
abbrev pub stream_block : String → String → Node
stream_block name transport = mapping (
    entry "id" (text "Sink") (
      entry "name" (text name) (
        entry "parameters"
          (mapping
            (entry "transport" (text transport) (entry "payload_format" (text "series") no_entry)))
          no_entry)))

abbrev pub two_streams : Assoc Node
two_streams =
    (
      "blocks",
      tensor (
          item (stream_block "scope" "websocket")
            (item (stream_block "power" "http_poll") no_item)),
    )
    ∷ []

-- The same streams in blocks as GNU Radio Studio writes them, with their types under "block".
abbrev pub studio_block : String → String → Node
studio_block name transport = mapping (
    entry "block" (text "Sink") (
      entry "id" (text name) (
        entry "parameters"
          (mapping
            (entry "transport" (text transport) (entry "payload_format" (text "series") no_entry)))
          no_entry)))

abbrev pub studio_streams : Assoc Node
studio_streams =
    (
      "blocks",
      tensor (
          item (studio_block "scope" "websocket")
            (item (studio_block "power" "http_poll") no_item)),
    )
    ∷ []

-- The only texts that are read are "two" and "studio".
abbrev pub nodes : Pmt
nodes = record {
  Value = Node;
  as_string = text_of;
  as_map = mapping_of;
  as_tensor = tensor_of;
  of_string = text;
  of_map = λ m. mapping (of_entries m);
  of_tensor = λ l. tensor (of_items l);
  of_int = number;
  same = same_node;
  serialize = λ m. "graph";
  deserialize = λ s.
      if s == "two" then some two_streams else if s == "studio" then some studio_streams else none;
  as_string-of_string = λ s. refl;
  as_tensor-of_tensor = λ l. ap some (items-of_items l);
  as_map-of_map = λ m. ap some (entries-of_entries m);
}
