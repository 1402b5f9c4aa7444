-- ===== src/Catalog.antt =====
-- The block and scheduler catalogs: include/gr4cp/domain/block_catalog.hpp and
-- scheduler_catalog.hpp, the providers' interfaces, and src/app/block_catalog_service.cpp and
-- scheduler_catalog_service.cpp. `D` is the type `double`.
pub mod Blocks
pub mod Schedulers
pub mod Examples
use gnuradio4_control_plane.Prelude.{
  ℕ, String, Bool, true, false, not, Option, none, some, List, Assoc, if◌then◌else◌, ◌==◌, ◌&&◌,
}

-- `int`; `negsuc n` is `-(n + 1)`.
pub data ℤ : Type 0 where
  pos negsuc : ℕ → ℤ

pub data BlockParameterDefault (D : Type 0) : Type 0 where
  null_default : BlockParameterDefault D
  bool_default : Bool → BlockParameterDefault D
  int_default : ℤ → BlockParameterDefault D
  double_default : D → BlockParameterDefault D
  string_default : String → BlockParameterDefault D

pub data BlockPortCardinalityKind : Type 0 where
  fixed dynamic : BlockPortCardinalityKind

pub record BlockPortDescriptor : Type 0 where
  pub name : String
  pub type : String
  pub cardinality_kind : BlockPortCardinalityKind
  pub current_port_count : Option ℤ
  pub render_port_count : Option ℤ
  pub min_port_count : Option ℤ
  pub max_port_count : Option ℤ
  pub size_parameter : Option String
  pub handle_name_template : Option String

pub record BlockParameterDescriptor (D : Type 0) : Type 0 where
  pub name : String
  pub type : String
  pub required : Bool
  pub default_value : BlockParameterDefault D
  pub summary : String
  pub runtime_mutability : Option String
  pub value_kind : Option String
  pub enum_choices : Option (List String)
  pub enum_type : Option String
  pub enum_labels : Assoc String
  pub enum_source : Option String
  pub ui_hint : Option String
  pub allow_custom_value : Option Bool

pub record BlockDescriptor (D : Type 0) : Type 0 where
  pub id : String
  pub canonical_type : Option String
  pub name : String
  pub category : String
  pub summary : String
  pub inputs : List BlockPortDescriptor
  pub outputs : List BlockPortDescriptor
  pub parameters : List (BlockParameterDescriptor D)

pub record SchedulerDescriptor : Type 0 where
  pub id : String
