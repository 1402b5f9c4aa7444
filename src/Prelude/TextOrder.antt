-- ===== src/Prelude/TextOrder.antt =====
-- Laws of the order of `std::string`.
use Prim.Native.Nat.{compare as compare_ℕ, Ordering}
use Prim.Native.Char.{Char, code}
use Prim.Native.String.compare as compare_clauses
use Prim.Native.String.{String, [], ◌∷◌, compare, then as chain}
use mathlib.Core.Path.{◌≡◌, refl, sym, ap, ◌∙◌}
use mathlib.Core.Bool.{true, false, false≢true}
use native.Mathlib.Omega.{arith}
use text.Mathlib.Text.{is_eq}
use text.Mathlib.TextEquality.{eq_iff}
use gnuradio4_control_plane.Prelude.Tests.{if◌then◌else◌, ltb, nat_eq}
use gnuradio4_control_plane.Prelude.Sorting.{text_lt, is_lt, swapped, swapped-compare}

text_lt-nil : (d : Char) (t : String) → text_lt [] (d ∷ t) ≡ true
unfolding text_lt is_lt
text_lt-nil d t = rw (compare_clauses.nil-cons d t) refl

text_lt-of_nil : (s : String) → text_lt s [] ≡ false
unfolding text_lt is_lt
text_lt-of_nil [] = refl
text_lt-of_nil (c ∷ s) = rw (compare_clauses.cons-nil c s) refl

text_lt-cons :
    (c d : Char) (s t : String)
    → text_lt (c ∷ s) (d ∷ t)
      ≡ (if nat_eq (code c) (code d) then text_lt s t else ltb (code c) (code d))
unfolding text_lt is_lt
text_lt-cons c d s t =
    rw (compare_clauses.cons-cons c d s t) (by_order (compare_ℕ (code c) (code d)))
  where
    by_order :
        (o : Ordering)
        → is_lt (chain o (compare s t)) ≡ (
            if (elim o [ Ordering.eq ↦ true | _ ↦ false ])
            then is_lt (compare s t)
            else elim o [ Ordering.lt ↦ true | _ ↦ false ])
    by_order Ordering.lt = refl
    by_order Ordering.eq = refl
    by_order Ordering.gt = refl

pub text_lt-transitive :
    (s t u : String) → text_lt s t ≡ true → text_lt t u ≡ true → text_lt s u ≡ true
text_lt-transitive s [] u h g = absurd (false≢true (sym (text_lt-of_nil s) ∙ h))
text_lt-transitive s (d ∷ t) [] h g = absurd (false≢true (sym (text_lt-of_nil (d ∷ t)) ∙ g))
text_lt-transitive [] (d ∷ t) (e ∷ u) h g = text_lt-nil e u
text_lt-transitive (c ∷ s) (d ∷ t) (e ∷ u) h g = ground (
  arith,
  text_lt-cons c d s t,
  text_lt-cons d e t u,
  text_lt-cons c e s u,
  text_lt-transitive s t u,
)

neither_less : (o : Ordering) → is_lt o ≡ false → is_lt (swapped o) ≡ false → is_eq o ≡ true
unfolding is_lt swapped
neither_less Ordering.lt h g = absurd (false≢true (sym h))
neither_less Ordering.eq h g = refl
neither_less Ordering.gt h g = absurd (false≢true (sym g))

-- Of two texts that differ, one is less than the other.
pub text_lt-total : (s t : String) → text_lt s t ≡ false → text_lt t s ≡ false → s ≡ t
unfolding text_lt
text_lt-total s t h g =
    (eq_iff s t).0 (neither_less (compare s t) h (ap is_lt (swapped-compare s t) ∙ g))
