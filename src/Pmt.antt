-- ===== src/Pmt.antt =====
-- The values of GNU Radio 4 that the program handles, `gr::pmt::Value` and `gr::property_map`, are
-- not part of the repository. The record has what the program uses of them: the views of a value
-- (`ValueVisitor`, `get_if`) and the values that are made from a text, a map, a
-- tensor or an integer, which are seen as
-- what they were made from. A property map is an association list; `deserialize` and `serialize` are
-- those of `gr::pmt::yaml`, and `same` is `==` on values.
use gnuradio4_control_plane.Prelude.{ℕ, String, Bool, ◌≡◌, Option, some, List, Assoc}

pub record Pmt : Type 1 where
  pub Value : Type 0
  pub as_string : Value → Option String
  pub as_map : Value → Option (Assoc Value)
  pub as_tensor : Value → Option (List Value)
  pub of_string : String → Value
  pub of_map : Assoc Value → Value
  pub of_tensor : List Value → Value
  pub of_int : ℕ → Value
  pub same : Value → Value → Bool
  pub deserialize : String → Option (Assoc Value)
  pub serialize : Assoc Value → String
  pub as_string-of_string : (s : String) → as_string (of_string s) ≡ some s
  pub as_tensor-of_tensor : (l : List Value) → as_tensor (of_tensor l) ≡ some l
  pub as_map-of_map : (m : Assoc Value) → as_map (of_map m) ≡ some m
