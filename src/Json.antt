-- ===== src/Json.antt =====
-- The JSON library, nlohmann/json, is not part of the repository. The record has what the program
-- uses of it: the values that are made, the tests and readings of a value, and its text. The
-- library's `dump` throws on a text that is not UTF-8; a String is Unicode text, so `dump` is total.
use gnuradio4_control_plane.Prelude.{
  String, ◌≡◌, Bool, true, false, Option, some, List, Assoc, find,
}
use gnuradio4_control_plane.Catalog.{ℤ}

pub record JsonLibrary : Type 1 where
  pub Json : Type 0
  pub Double : Type 0
  pub null : Json
  pub boolean : Bool → Json
  pub integer : ℤ → Json
  pub double : Double → Json
  pub text : String → Json
  pub array : List Json → Json
  pub object : Assoc Json → Json
  pub is_null : Json → Bool
  pub as_text : Json → Option String
  pub member : String → Json → Option Json
  pub parse : String → Option Json
  pub dump : Json → String
  pub is_null-null : is_null null ≡ true
  pub is_null-text : (s : String) → is_null (text s) ≡ false
  pub as_text-text : (s : String) → as_text (text s) ≡ some s
  pub member-object : (key : String) (m : Assoc Json) → member key (object m) ≡ find key m
