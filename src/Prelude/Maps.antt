-- ===== src/Prelude/Maps.antt =====
-- `std::map` and `std::unordered_map` keyed by `std::string`, as association lists. `insert` is
-- `insert_or_assign` (and assignment through `[]`), `erase` removes the key.
use Prim.Native.String.{String}
use mathlib.Core.Path.{◌≡◌, refl}
use mathlib.Core.Bool.{Bool}
use mathlib.Core.Option.{Option, none, some}
use mathlib.Core.List.{List, [], ◌∷◌}
use native.Mathlib.Omega.{arith}
use text.Mathlib.Text.{◌==◌}
use text.Mathlib.TextEquality.{eq_iff}
use gnuradio4_control_plane.Prelude.Tests.{if◌then◌else◌, has_value}

abbrev pub Assoc {ℓ} : Type ℓ → Type ℓ
Assoc V = List (String × V)

module _ {ℓ} {V : Type ℓ} where
  unfoldable pub find : String → Assoc V → Option V
  find k [] = none
  find k ((j, v) ∷ m) = if j == k then some v else find k m

  unfoldable pub insert : String → V → Assoc V → Assoc V
  insert k v [] = (k, v) ∷ []
  insert k v ((j, w) ∷ m) = if j == k then (k, v) ∷ m else (j, w) ∷ insert k v m

  unfoldable pub erase : String → Assoc V → Assoc V
  erase k [] = []
  erase k ((j, v) ∷ m) = if j == k then erase k m else (j, v) ∷ erase k m

  abbrev pub contains : String → Assoc V → Bool
  contains k m = has_value (find k m)

  pub find-nil : (k : String) → find k [] ≡ none
  unfolding find
  find-nil k = refl

  pub find-insert :
      (k j : String) (v : V) (m : Assoc V)
      → find j (insert k v m) ≡ (if k == j then some v else find j m)
  unfolding find insert
  find-insert k j v [] = refl
  find-insert k j v ((i, w) ∷ m) =
      ground (arith, eq_iff k j, eq_iff i k, eq_iff i j, find-insert k j v m)

  pub find-insert_same : (k : String) (v : V) (m : Assoc V) → find k (insert k v m) ≡ some v
  find-insert_same k v m = ground (arith, eq_iff k k, find-insert k k v m)

  pub find-erase :
      (k j : String) (m : Assoc V) → find j (erase k m) ≡ (if k == j then none else find j m)
  unfolding find erase
  find-erase k j [] = ground arith
  find-erase k j ((i, w) ∷ m) = ground (arith, eq_iff k j, eq_iff i k, eq_iff i j, find-erase k j m)
