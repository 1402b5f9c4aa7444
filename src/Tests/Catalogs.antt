-- ===== src/Tests/Catalogs.antt =====
-- The catalogs on small inputs.
use gnuradio4_control_plane.Prelude.{
  ℕ, String, ◌≡◌, refl, Option, none, some, List, [], ◌∷◌, if◌then◌else◌, nat_eq,
}
use gnuradio4_control_plane.Errors.{Exec, ok}
use gnuradio4_control_plane.Catalog.{BlockDescriptor, SchedulerDescriptor}
use gnuradio4_control_plane.Catalog.Blocks as Blocks
use gnuradio4_control_plane.Catalog.Blocks.Browse.{key_count, build_catalog-key_count}
use gnuradio4_control_plane.Catalog.Blocks.Lookup.{Looks, get-Looks}
use gnuradio4_control_plane.Catalog.Schedulers as Schedulers

abbrev pub block_named : String → Option String → BlockDescriptor ℕ
block_named id canonical_type = record {
  id = id;
  canonical_type = canonical_type;
  name = "Add";
  category = "Math";
  summary = "";
  inputs = [];
  outputs = [];
  parameters = [];
}

-- A block under its canonical type and under an alias, and another block.
abbrev pub three_blocks : List (BlockDescriptor ℕ)
three_blocks =
    block_named "gr::Add" (some "gr::Add")
    ∷ block_named "Add" (some "gr::Add")
    ∷ block_named "Sub" none
    ∷ []

build_catalog-key_count_example :
    key_count "gr::Add" (Blocks.build_catalog three_blocks).browse_blocks
    ≡ (if nat_eq (key_count "gr::Add" three_blocks) 0 then 0 else 1)
build_catalog-key_count_example = build_catalog-key_count "gr::Add" three_blocks

abbrev pub block_provider : Exec ℕ (List (BlockDescriptor ℕ))
block_provider n = (ok three_blocks, n)

abbrev pub no_blocks : Blocks.Service ℕ ℕ
no_blocks = record { cached_catalog = none; provider = 0 }

get-Looks_example :
    Looks "Sub" three_blocks (Blocks.get block_provider "Sub" no_blocks).0
    × ((Blocks.get block_provider "Mul" (Blocks.get block_provider "Sub" no_blocks).1).1
        ≡ (Blocks.get block_provider "Sub" no_blocks).1)
    × (Blocks.list block_provider (Blocks.get block_provider "Sub" no_blocks).1 ≡ (
      ok (Blocks.build_catalog three_blocks).browse_blocks,
      (Blocks.get block_provider "Sub" no_blocks).1,
    ))
get-Looks_example = get-Looks block_provider "Sub" "Mul" no_blocks three_blocks refl refl

abbrev two_schedulers : List SchedulerDescriptor
two_schedulers = record { id = "simple" } ∷ record { id = "multi" } ∷ []

abbrev scheduler_provider : Exec ℕ (List SchedulerDescriptor)
scheduler_provider n = (ok two_schedulers, n)

abbrev no_schedulers : Schedulers.Service ℕ
no_schedulers = record { cached_catalog = none; provider = 0 }
