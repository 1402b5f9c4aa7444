-- ===== src/Prelude/Unique.antt =====
-- `std::unique` on sorted texts, and the order of what it leaves.
use mathlib.Core.Path.{◌≡◌, sym, ◌∙◌, subst}
use mathlib.Core.Bool.{true, false, false≢true}
use mathlib.Core.Logic.{inl, inr}
use mathlib.Core.List.{List, [], ◌∷◌}
use Prim.Native.String.{String}
use native.Mathlib.Omega.{arith}
use text.Mathlib.Text.{◌==◌}
use text.Mathlib.TextEquality.{eq_iff}
use gnuradio4_control_plane.Prelude.Tests.{Bool-cases}
use gnuradio4_control_plane.Prelude.Lists.{All, All-weaken}
use gnuradio4_control_plane.Prelude.Sorting.{text_lt, text_lt-asymmetric, sort, place}
use gnuradio4_control_plane.Prelude.TextOrder.{text_lt-transitive, text_lt-total}

-- The texts behind a text that was kept.
unfoldable pub unique_behind : String → List String → List String
unique_behind x [] = []
unique_behind x (y ∷ ys) = elim (x == y) [
  | true ↦ unique_behind x ys
  | false ↦ y ∷ unique_behind y ys
]

unfoldable pub unique : List String → List String
unfolding unique_behind
unique [] = []
unique (x ∷ xs) = x ∷ unique_behind x xs

-- Each text is before those that follow it; or none follows one that it is before.
abbrev pub Increasing : List String → Type 0
Increasing [] = Unit
Increasing (x ∷ xs) = All (λ y. text_lt x y ≡ true) xs × Increasing xs

abbrev pub NotDecreasing : List String → Type 0
NotDecreasing [] = Unit
NotDecreasing (x ∷ xs) = All (λ y. text_lt y x ≡ false) xs × NotDecreasing xs

-- Not less, and so less where the texts differ.
less_or_same : (x y : String) → (x == y) ≡ false → text_lt y x ≡ false → text_lt x y ≡ true
less_or_same x y d h = elim (Bool-cases (text_lt x y)) [
  | inl e ↦ e
  | inr e ↦ ground (arith, eq_iff x y, text_lt-total x y e h)
]

not_less-transitive :
    (x y z : String) → text_lt y x ≡ false → text_lt z y ≡ false → text_lt z x ≡ false
not_less-transitive x y z h g = elim (Bool-cases (text_lt z x)) [
  | inl e ↦ elim (Bool-cases (text_lt x y)) [
    | inl f ↦ absurd (false≢true (sym g ∙ text_lt-transitive z x y e f))
    | inr f ↦ subst (λ v. text_lt z v ≡ false) (sym (text_lt-total x y f h)) g
  ]
  | inr e ↦ e
]

place-All :
    (P : String → Type 0) (x : String) (xs : List String)
    → P x
    → All P xs
    → All P (place text_lt x xs)
unfolding place
place-All P x [] h hs = (h, tt)
place-All P x (y ∷ ys) h hs = elim (Bool-cases (text_lt y x)) [
  | inl e ↦ rw (e, place) (hs.0, place-All P x ys h hs.1)
  | inr e ↦ rw (e, place) (h, hs)
]

sort-All : (P : String → Type 0) (xs : List String) → All P xs → All P (sort text_lt xs)
unfolding sort
sort-All P [] h = tt
sort-All P (x ∷ xs) h = place-All P x (sort text_lt xs) h.0 (sort-All P xs h.1)

place-NotDecreasing :
    (x : String) (xs : List String) → NotDecreasing xs → NotDecreasing (place text_lt x xs)
unfolding place
place-NotDecreasing x [] h = (tt, tt)
place-NotDecreasing x (y ∷ ys) h = elim (Bool-cases (text_lt y x)) [
  | inl e ↦
      rw (e, place) (place-All _ x ys (text_lt-asymmetric y x e) h.0, place-NotDecreasing x ys h.1)
  | inr e ↦ rw (e, place) ((e, All-weaken (λ z g. not_less-transitive x y z e g) ys h.0), h)
]

sort-NotDecreasing : (xs : List String) → NotDecreasing (sort text_lt xs)
unfolding sort
sort-NotDecreasing [] = tt
sort-NotDecreasing (x ∷ xs) = place-NotDecreasing x (sort text_lt xs) (sort-NotDecreasing xs)

unique_behind-All :
    (P : String → Type 0) (x : String) (ys : List String) → All P ys → All P (unique_behind x ys)
unfolding unique_behind
unique_behind-All P x [] h = tt
unique_behind-All P x (y ∷ ys) h = elim (Bool-cases (x == y)) [
  | inl e ↦ rw (e, unique_behind) (unique_behind-All P x ys h.1)
  | inr e ↦ rw (e, unique_behind) (h.0, unique_behind-All P y ys h.1)
]

unique_behind-Increasing :
    (x : String) (ys : List String) → NotDecreasing (x ∷ ys) → Increasing (x ∷ unique_behind x ys)
unfolding unique_behind
unique_behind-Increasing x [] h = (tt, tt)
unique_behind-Increasing x (y ∷ ys) h = elim (Bool-cases (x == y)) [
  | inl e ↦ rw (e, unique_behind) (unique_behind-Increasing x ys (h.0.1, h.1.1))
  | inr e ↦
      let less = less_or_same x y e h.0.0 in
      let rest = unique_behind-Increasing y ys h.1 in
      rw (e, unique_behind)
        (
          (less, All-weaken (λ z g. text_lt-transitive x y z less g) (unique_behind y ys) rest.0),
          rest,
        )
]

-- Sorting and `std::unique` leave each text once, in increasing order.
pub unique-sort-Increasing : (xs : List String) → Increasing (unique (sort text_lt xs))
unfolding unique
unique-sort-Increasing xs = by_list (sort text_lt xs) (sort-NotDecreasing xs)
  where
    by_list : (ys : List String) → NotDecreasing ys → Increasing (unique ys)
    by_list [] h = tt
    by_list (y ∷ ys) h = unique_behind-Increasing y ys h

-- What holds of all the texts holds of those that are left.
pub unique-sort-All :
    (P : String → Type 0) (xs : List String) → All P xs → All P (unique (sort text_lt xs))
unfolding unique
unique-sort-All P xs h = by_list (sort text_lt xs) (sort-All P xs h)
  where
    by_list : (ys : List String) → All P ys → All P (unique ys)
    by_list [] h = tt
    by_list (y ∷ ys) h = (h.0, unique_behind-All P y ys h.1)

place-All_back :
    (P : String → Type 0) (x : String) (xs : List String)
    → All P (place text_lt x xs)
    → P x × All P xs
unfolding place
place-All_back P x [] h = h
place-All_back P x (y ∷ ys) h = elim (Bool-cases (text_lt y x)) [
  | inl e ↦
      let g : P y × All P (place text_lt x ys) = rw (e, place) at h in
      let (here, rest) = place-All_back P x ys g.1 in (here, (g.0, rest))
  | inr e ↦ rw (e, place) at h
]

sort-All_back : (P : String → Type 0) (xs : List String) → All P (sort text_lt xs) → All P xs
unfolding sort
sort-All_back P [] h = tt
sort-All_back P (x ∷ xs) h =
    let (here, rest) = place-All_back P x (sort text_lt xs) h in (here, sort-All_back P xs rest)

unique_behind-All_back :
    (P : String → Type 0) (x : String) (ys : List String)
    → P x
    → All P (unique_behind x ys)
    → All P ys
unfolding unique_behind
unique_behind-All_back P x [] p h = tt
unique_behind-All_back P x (y ∷ ys) p h = elim (Bool-cases (x == y)) [
  | inl e ↦
      (subst P ((eq_iff x y).0 e) p, unique_behind-All_back P x ys p (rw (e, unique_behind) at h))
  | inr e ↦
      let g : P y × All P (unique_behind y ys) = rw (e, unique_behind) at h in
      (g.0, unique_behind-All_back P y ys g.0 g.1)
]

-- What holds of the texts that are left holds of all: none is lost.
pub unique-sort-All_back :
    (P : String → Type 0) (xs : List String) → All P (unique (sort text_lt xs)) → All P xs
unfolding unique
unique-sort-All_back P xs h = sort-All_back P xs (by_list (sort text_lt xs) h)
  where
    by_list : (ys : List String) → All P (unique ys) → All P ys
    by_list [] h = tt
    by_list (y ∷ ys) h = (h.0, unique_behind-All_back P y ys h.0 h.1)
