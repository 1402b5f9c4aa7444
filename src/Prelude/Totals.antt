-- ===== src/Prelude/Totals.antt =====
-- Maps whose keys differ, and sums over their values.
use Prim.Native.Nat.{ℕ, ◌+◌}
use Prim.Native.String.{String}
use mathlib.Core.Path.{◌≡◌, refl}
use mathlib.Core.Logic.{inl, inr}
use mathlib.Core.Option.{Option, none, some}
use mathlib.Core.List.{[], ◌∷◌}
use native.Mathlib.Omega.{arith}
use text.Mathlib.Text.{◌==◌}
use text.Mathlib.TextEquality.{eq_iff}
use gnuradio4_control_plane.Prelude.Tests.{Bool-cases}
use gnuradio4_control_plane.Prelude.Maps.{Assoc, find, insert, erase, find-insert, find-erase}

module _ {V : Type 0} where
  -- No key stands twice.
  abbrev pub IsMap : Assoc V → Type 0
  IsMap [] = Unit
  IsMap ((k, v) ∷ m) = (find k m ≡ none) × IsMap m

  pub insert-IsMap : (k : String) (v : V) (m : Assoc V) → IsMap m → IsMap (insert k v m)
  unfolding insert
  insert-IsMap k v [] h = (unfold find in refl, tt)
  insert-IsMap k v ((j, w) ∷ m) h = elim (Bool-cases (j == k)) [
    | inl e ↦ rw e (ground (arith, eq_iff j k, h.0), h.1)
    | inr e ↦
        rw e
          (ground (arith, eq_iff j k, eq_iff k j, h.0, find-insert k j v m), insert-IsMap k v m h.1)
  ]

  pub erase-IsMap : (k : String) (m : Assoc V) → IsMap m → IsMap (erase k m)
  unfolding erase
  erase-IsMap k [] h = tt
  erase-IsMap k ((j, w) ∷ m) h = elim (Bool-cases (j == k)) [
    | inl e ↦ rw e (erase-IsMap k m h.1)
    | inr e ↦ rw e (ground (arith, h.0, find-erase k j m), erase-IsMap k m h.1)
  ]

  module _ (f : V → ℕ) where
    abbrev pub weight : Option V → ℕ
    weight none = 0
    weight (some v) = f v

    -- The sum over the values of a map.
    unfoldable pub total : Assoc V → ℕ
    total [] = 0
    total ((k, v) ∷ m) = f v + total m

    erase_missing : (k : String) (m : Assoc V) → find k m ≡ none → total (erase k m) ≡ total m
    unfolding total erase find
    erase_missing k [] h = refl
    erase_missing k ((j, w) ∷ m) h = ground (arith, erase_missing k m)

    pub total-insert :
        (k : String) (v : V) (m : Assoc V)
        → total (insert k v m) + weight (find k m) ≡ total m + f v
    unfolding total insert find
    total-insert k v [] = omega arith
    total-insert k v ((j, w) ∷ m) = ground (arith, total-insert k v m)

    pub total-erase :
        (k : String) (m : Assoc V) → IsMap m → total (erase k m) + weight (find k m) ≡ total m
    unfolding total erase find
    total-erase k [] h = omega arith
    total-erase k ((j, w) ∷ m) h =
        ground (arith, total-erase k m h.1, erase_missing k m, eq_iff j k, h.0)
