-- ===== src/Provider/Reread.antt =====
-- A description that was written as text by the child process, and the views of what is read of it.
use gnuradio4_control_plane.Prelude.{
  String, Bool, Option, none, some, ◌≡◌, refl, ap, arith, if◌then◌else◌, ◌==◌,
}
use gnuradio4_control_plane.Catalog.{ℤ, pos, negsuc}
use gnuradio4_control_plane.Settings.Values.{
  JsonValue, boolean, number_integer, number_unsigned, text, object, array, Members, no_member,
  member, Elements, no_element, element,
}
use gnuradio4_control_plane.Provider.Fits.{IsInt, OptionIsInt}
use gnuradio4_control_plane.Provider.Fields.{
  to_int, lookup, optional, as_text, as_int, as_bool, view,
}

pub to_int-IsInt : (z : ℤ) → IsInt z → to_int z ≡ z
to_int-IsInt (pos n) h = ground arith
to_int-IsInt (negsuc n) h = ground arith

module _ {D : Type 0} where
  -- What is read of a value that was written: a number that is not negative is unsigned.
  unfoldable mutual
    pub reread : JsonValue D → JsonValue D
    reread (number_integer (pos n)) = number_unsigned n
    reread (object m) = object (reread_members m)
    reread (array xs) = array (reread_elements xs)
    reread v = v

    pub reread_members : Members D → Members D
    reread_members no_member = no_member
    reread_members (member k v m) = member k (reread v) (reread_members m)

    pub reread_elements : Elements D → Elements D
    reread_elements no_element = no_element
    reread_elements (element v xs) = element (reread v) (reread_elements xs)

  abbrev pub reread_option : Option (JsonValue D) → Option (JsonValue D)
  reread_option none = none
  reread_option (some v) = some (reread v)

  pub lookup-reread :
      (key : String) (m : Members D) → lookup key (reread_members m) ≡ reread_option (lookup key m)
  unfolding lookup reread reread_members
  lookup-reread key no_member = refl
  lookup-reread key (member k v m) = ground (arith, lookup-reread key m)

  abbrev pub or_else :
      {A : Type 0} → (A → JsonValue D) → Option A → Option (JsonValue D) → Option (JsonValue D)
  or_else encode none rest = rest
  or_else encode (some a) rest = some (encode a)

  pub lookup-optional :
      {A : Type 0} (j k : String) (encode : A → JsonValue D) (o : Option A) (m : Members D)
      → lookup j (optional k encode o m)
        ≡ (if k == j then or_else encode o (lookup j m) else lookup j m)
  unfolding lookup
  lookup-optional j k encode none m = ground arith
  lookup-optional j k encode (some a) m = ground arith

module _ (D : Type 0) where
  pub view-as_text :
      (o : Option String) → view as_text (reread_option {D = D} (or_else text o none)) ≡ o
  unfolding reread
  view-as_text none = refl
  view-as_text (some s) = refl

  pub view-as_bool :
      (o : Option Bool) → view as_bool (reread_option {D = D} (or_else boolean o none)) ≡ o
  unfolding reread
  view-as_bool none = refl
  view-as_bool (some b) = refl

  pub view-as_int :
      (o : Option ℤ)
      → OptionIsInt o
      → view as_int (reread_option {D = D} (or_else number_integer o none)) ≡ o
  unfolding reread
  view-as_int none h = refl
  view-as_int (some (pos n)) h = ap some (to_int-IsInt (pos n) h)
  view-as_int (some (negsuc n)) h = ap some (to_int-IsInt (negsuc n) h)
