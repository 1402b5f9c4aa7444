-- ===== src/Tests/Provider.antt =====
-- Descriptions, listings and schedulers of small catalogs.
use gnuradio4_control_plane.Prelude.{
  ℕ, String, Bool, true, false, Option, none, some, List, [], ◌∷◌, ◌≡◌, refl, sym, subst,
  if◌then◌else◌, ◌==◌, ◌≢◌, All, Increasing, arith, inl, inr, unique, sort, text_lt, find, decimal,
  ap, eq_iff,
}
use gnuradio4_control_plane.Errors.{ok, what, pure}
use gnuradio4_control_plane.Streams.Plan.{member}
use gnuradio4_control_plane.Catalog.{pos, BlockDescriptor, SchedulerDescriptor}
use gnuradio4_control_plane.Settings.Values.{JsonValue}
use gnuradio4_control_plane.Provider.Model.{
  Values, string, DynamicPort, collection, BlockModel, bool_type,
}
use gnuradio4_control_plane.Provider.Fields.{JsonFault, lookup}
use gnuradio4_control_plane.Provider.Encode.{block_to_json}
use gnuradio4_control_plane.Provider.Decode.{parse_block_descriptor}
use gnuradio4_control_plane.Provider.Reread.{reread}
use gnuradio4_control_plane.Provider.RoundTrip.{parse_block_descriptor-dump}
use gnuradio4_control_plane.Provider.Collections.{to_port_descriptor}
use gnuradio4_control_plane.Provider.Bounds.{DrawnWithin, to_port_descriptor-DrawnWithin}
use gnuradio4_control_plane.Provider.Reflect.{GnuRadio, description, reflect_block}
use gnuradio4_control_plane.Provider.Reflected.{description-Fits}
use gnuradio4_control_plane.Provider.Worker.{
  Process, invalid_or, no_child, forked, end_of_file, exited, child, payload_of,
  reflect_block_in_subprocess,
}
use gnuradio4_control_plane.Provider.Handover.{reflect_block_in_subprocess-reflect_block}
use gnuradio4_control_plane.Provider.Plugins.{System}
use gnuradio4_control_plane.Provider.Listing.{
  Registry, Provider, load, list, registered, added, usable_or,
}
use gnuradio4_control_plane.Provider.Described.{ids_of, Among}
use gnuradio4_control_plane.Provider.Listed.{list-Among}
use gnuradio4_control_plane.Provider.Children.{list-reflect_block}
use gnuradio4_control_plane.Provider.Schedulers.{describe_schedulers, is_alias_scheduler_id}
use gnuradio4_control_plane.Provider.Aliases.{scheduler_ids, describe_schedulers-aliases}

-- Values that are texts.
abbrev texts : Values
texts = record {
  Value = String;
  Double = ℕ;
  visit = string;
  is_map = λ s. false;
  is_complex = λ s. false;
  is_tensor = λ s. false;
  is_string = λ s. true;
  is_integral = λ s. false;
  is_floating_point = λ s. false;
  value_type = λ s. bool_type;
}

abbrev adder : BlockModel String
adder = record {
  name = "Adder";
  type_name = "gr::basic::Add<float32>";
  meta_information = ("description", "Adds") ∷ [];
  settings = ("name", "add") ∷ [];
  dynamic_input_ports =
      collection "inputs" (record { name = "in0"; type_name = "float32" } ∷ []) ∷ [];
  dynamic_output_ports = [];
}

abbrev radio : GnuRadio texts
radio = record {
  Loader = Unit;
  instantiate = λ loader id. ok none;
  create = λ id. ok (some adder);
  prepare = ok;
}

abbrev add_id : String
add_id = "gr::basic::Add<float32>"

abbrev described : BlockDescriptor ℕ
unfolding description
described = description texts add_id adder

abbrev fault_text : JsonFault → String
fault_text f = "fault"

-- The only text is that of the description.
abbrev dump : JsonValue ℕ → String
dump v = "json"

abbrev parse : String → Option (JsonValue ℕ)
unfolding block_to_json reread description
parse s = if s == "json" then some (reread (block_to_json described)) else none

parse_block_descriptor-dump_example :
    parse_block_descriptor fault_text parse (dump (block_to_json described)) ≡ ok described
unfolding block_to_json reread description
parse_block_descriptor-dump_example =
    parse_block_descriptor-dump ℕ fault_text parse dump described refl
      (description-Fits texts add_id adder)

reflect_block_in_subprocess-reflect_block_example :
    reflect_block_in_subprocess fault_text parse add_id
      (forked ("js" ∷ "on" ∷ []) end_of_file (exited 0))
    ≡ ok described
unfolding block_to_json reread description reflect_block child payload_of
reflect_block_in_subprocess-reflect_block_example =
    reflect_block_in_subprocess-reflect_block texts radio fault_text parse dump (tt ∷ []) add_id
      described (pos 2 ∷ pos 1 ∷ pos 1 ∷ pos 1 ∷ []) ("js" ∷ "on" ∷ []) refl refl refl
      (ground arith, (ground arith, (ground arith, (ground arith, tt)))) (ground arith) refl

abbrev ports : List DynamicPort
ports =
    record { name = "in0"; type_name = "float32" }
    ∷ record { name = "in1"; type_name = "float32" }
    ∷ []

to_port_descriptor-DrawnWithin_example :
    DrawnWithin (to_port_descriptor (collection "inputs" ports) add_id described.parameters true)
unfolding description
to_port_descriptor-DrawnWithin_example =
    to_port_descriptor-DrawnWithin "inputs" add_id ports described.parameters true (ground arith)
      (λ count same counts no_default. ground arith)

abbrev known : List String
known = "gr::Simple<multi>" ∷ "multi" ∷ "single" ∷ "multi" ∷ []

abbrev schedulers : List SchedulerDescriptor
schedulers = record { id = "multi" } ∷ record { id = "single" } ∷ []

describe_schedulers-aliases_example :
    Increasing (scheduler_ids schedulers)
    × All (λ id. is_alias_scheduler_id id ≡ true) (scheduler_ids schedulers)
    × ((P : String → Type 0) → All P known → All P (scheduler_ids schedulers))
    × ((P : String → Type 0)
        → All P (scheduler_ids schedulers)
        → All (λ id. is_alias_scheduler_id id ≡ true → P id) known)
unfolding describe_schedulers unique sort text_lt
describe_schedulers-aliases_example = describe_schedulers-aliases known schedulers refl

-- One directory with a plugin; no directory needs a preloaded library.
abbrev system : System String
system = record {
  get_env = λ name w. none;
  set_env = λ name value w. w;
  is_directory = λ directory w. true;
  directory_entries =
      λ directory w. record { path = "libGrPlugin.so"; is_regular_file = true } ∷ [];
  filename = λ path. path;
  extension = λ path. ".so";
  absolute = λ path. path;
  in_directory = λ directory name. name;
  create_stage_directory = λ prefix. pure prefix;
  create_symlink = λ source destination w. (true, w);
  copy_file = λ source destination w. (true, w);
  dlopen = λ path w. (true, w);
  dlerror = λ w. none;
  bootstrap = λ library symbol. pure tt;
}

abbrev registry : Registry String
registry = record {
  Loader = Unit;
  plugin_loader = λ directories. pure tt;
  failed_plugins = λ loader. [];
  keys = λ w. "z" ∷ add_id ∷ "z" ∷ [];
  available_blocks = λ loader w. add_id ∷ [];
}

-- The child of "z" is not made.
abbrev process : String → Process
process id = if id == add_id then forked ("json" ∷ []) end_of_file (exited 0) else no_child

abbrev provider : Provider system registry
provider = record {
  loaded = record { world = "world"; loaded_libraries = []; retained = [] };
  pool = [];
}

abbrev directories : List String
directories = "plugins" ∷ []

-- What the child of any id sends is read.
parsed : parse_block_descriptor fault_text parse "json" ≡ ok described
unfolding block_to_json reread description
parsed =
    parse_block_descriptor-dump ℕ fault_text parse dump described refl
      (description-Fits texts add_id adder)

list-Among_example :
    (blocks : List (BlockDescriptor ℕ)) × ((list system registry fault_text parse process
        directories provider).0
      ≡ ok blocks)
    × Among described blocks
unfolding list load registered reflect_block_in_subprocess description block_to_json reread
    parse_block_descriptor unique sort text_lt lookup find
list-Among_example =
    list-Among fault_text parse process system registry directories provider add_id described refl
      (inr (inl refl)) parsed

abbrev chunks_of : Process → List String
chunks_of (forked chunks end wait) = chunks
chunks_of _ = []

abbrev IsForked : Process → Type 0
IsForked (forked chunks end wait) = Unit
IsForked _ = ⊥

-- The only child that exits with 0 sends the description.
sent :
    (id : String) (chunks : List String)
    → process id ≡ forked chunks end_of_file (exited 0)
    → (block : BlockDescriptor ℕ) × (reflect_block texts radio (tt ∷ []) id ≡ ok block)
      × (parse (payload_of chunks) ≡ some (reread (block_to_json block)))
unfolding reflect_block description block_to_json reread payload_of
sent id chunks e = by_test (id == add_id) refl e
  where
    by_test :
        (b : Bool)
        → (id == add_id) ≡ b
        → (if b then forked ("json" ∷ []) end_of_file (exited 0) else no_child)
          ≡ forked chunks end_of_file (exited 0)
        → (block : BlockDescriptor ℕ) × (reflect_block texts radio (tt ∷ []) id ≡ ok block)
          × (parse (payload_of chunks) ≡ some (reread (block_to_json block)))
    by_test false same h = absurd (subst IsForked (sym h) tt)
    by_test true same h = (
      described,
      subst (λ i. reflect_block texts radio (tt ∷ []) i ≡ ok described)
          (sym ((eq_iff id add_id).0 same)) refl,
      ap (λ q. parse (payload_of (chunks_of q))) (sym h),
    )

-- The block "z" is skipped.
listing :
    (list system registry fault_text parse process directories provider).0 ≡ ok (described ∷ [])
unfolding list load registered reflect_block_in_subprocess description block_to_json reread
    parse_block_descriptor unique sort text_lt what decimal payload_of member
listing = ap (λ r. usable_or (added r (ok []))) (ap (invalid_or fault_text parse add_id) parsed)

list-reflect_block_example :
    (described ∷ [] ≢ [])
    × Increasing (ids_of (described ∷ []))
    × ((P : String → Type 0)
        → All P (registered system registry (load system registry directories provider).1)
        → All P (ids_of (described ∷ [])))
    × All
        (λ (block : BlockDescriptor ℕ). reflect_block texts radio (tt ∷ []) block.id ≡ ok block)
        (described ∷ [])
unfolding description load registered
list-reflect_block_example =
    list-reflect_block texts radio fault_text parse process (tt ∷ []) sent system registry
      directories provider (described ∷ []) listing
