-- ===== src/Provider/Model.antt =====
-- What src/catalog/gr4_block_catalog_provider.cpp reads of a block of GNU Radio 4, `gr::BlockModel`,
-- and of the values of its settings, which are not part of the repository.
use gnuradio4_control_plane.Prelude.{ℕ, String, Bool, List, Assoc}
use gnuradio4_control_plane.Catalog.{ℤ}

pub data ValueType : Type 0 where
  bool_type int8_type int16_type int32_type int64_type : ValueType
  uint8_type uint16_type uint32_type uint64_type : ValueType
  float32_type float64_type complex_float32_type complex_float64_type : ValueType
  string_type value_type_of_value monostate_type : ValueType

-- What the visitor of a value meets: `view` is `std::string_view`.
pub data Visited (D V : Type 0) : Type 0 where
  truth : Bool → Visited D V
  signed_integer : ℤ → Visited D V
  unsigned_integer : ℕ → Visited D V
  floating : D → Visited D V
  string view : String → Visited D V
  string_tensor : List String → Visited D V
  value_tensor : List V → Visited D V
  map : Assoc V → Visited D V
  unread : Visited D V

pub record Values : Type 1 where
  pub Value : Type 0
  pub Double : Type 0
  pub visit : Value → Visited Double Value
  pub is_map : Value → Bool
  pub is_complex : Value → Bool
  pub is_tensor : Value → Bool
  pub is_string : Value → Bool
  pub is_integral : Value → Bool
  pub is_floating_point : Value → Bool
  pub value_type : Value → ValueType

-- `gr::DynamicPort`.
pub record DynamicPort : Type 0 where
  pub name : String
  pub type_name : String

pub data DynamicPortOrCollection : Type 0 where
  single : DynamicPort → DynamicPortOrCollection
  collection : String → List DynamicPort → DynamicPortOrCollection

-- A block after `settings().init()` and `applyStagedParameters()`.
pub record BlockModel (V : Type 0) : Type 0 where
  pub name : String
  pub type_name : String
  pub meta_information : Assoc V
  pub settings : Assoc V
  pub dynamic_input_ports : List DynamicPortOrCollection
  pub dynamic_output_ports : List DynamicPortOrCollection
