-- ===== src/Prelude/Sorting.antt =====
-- `std::sort` as insertion sort, and the order of `std::string`.
use Prim.Native.Nat.compare as nat_clauses
use Prim.Native.Nat.{ℕ, zero, suc, ◌+◌, Ordering, compare as compare_ℕ}
use Prim.Native.Char.{code}
use Prim.Native.String.compare as compare_clauses
use Prim.Native.String.{String, [], ◌∷◌, compare, then as chain}
use mathlib.Core.Path.{◌≡◌, refl, sym, ap, ◌∙◌}
use mathlib.Core.Logic.{inl, inr}
use mathlib.Core.Bool.{Bool, true, false, false≢true}
use mathlib.Core.List.{List, Perm}
use mathlib.Core.List as List
use mathlib.Core.List.Perm
use native.Mathlib.Omega.{arith}
use gnuradio4_control_plane.Prelude.Tests.{if◌then◌else◌, Bool-cases}

unfoldable pub swapped : Ordering → Ordering
swapped Ordering.lt = Ordering.gt
swapped Ordering.eq = Ordering.eq
swapped Ordering.gt = Ordering.lt

swapped-compare_ℕ : (m n : ℕ) → swapped (compare_ℕ m n) ≡ compare_ℕ n m
unfolding swapped
swapped-compare_ℕ zero zero = refl
swapped-compare_ℕ zero (suc n) = rw (nat_clauses.zero-suc n, nat_clauses.suc-zero n) refl
swapped-compare_ℕ (suc m) zero = rw (nat_clauses.zero-suc m, nat_clauses.suc-zero m) refl
swapped-compare_ℕ (suc m) (suc n) =
    rw (nat_clauses.suc-suc m n, nat_clauses.suc-suc n m) (swapped-compare_ℕ m n)

swapped-chain : (o p : Ordering) → swapped (chain o p) ≡ chain (swapped o) (swapped p)
unfolding swapped
swapped-chain Ordering.lt p = refl
swapped-chain Ordering.eq p = refl
swapped-chain Ordering.gt p = refl

pub swapped-compare : (s t : String) → swapped (compare s t) ≡ compare t s
unfolding swapped
swapped-compare [] [] = refl
swapped-compare [] (d ∷ t) = rw (compare_clauses.nil-cons d t, compare_clauses.cons-nil d t) refl
swapped-compare (c ∷ s) [] = rw (compare_clauses.nil-cons c s, compare_clauses.cons-nil c s) refl
swapped-compare (c ∷ s) (d ∷ t) =
    rw
      (
        compare_clauses.cons-cons c d s t,
        compare_clauses.cons-cons d c t s,
        swapped-chain (compare_ℕ (code c) (code d)) (compare s t),
        swapped-compare_ℕ (code c) (code d),
        swapped-compare s t,
      )
      refl

unfoldable pub is_lt : Ordering → Bool
is_lt Ordering.lt = true
is_lt _ = false

-- `<` of `std::string`.
unfoldable pub text_lt : String → String → Bool
unfolding is_lt
text_lt s t = is_lt (compare s t)

is_lt-swapped : (o : Ordering) → is_lt o ≡ true → is_lt (swapped o) ≡ false
unfolding is_lt swapped
is_lt-swapped Ordering.lt h = refl
is_lt-swapped Ordering.eq h = refl
is_lt-swapped Ordering.gt h = absurd (false≢true h)

pub text_lt-asymmetric : (s t : String) → text_lt s t ≡ true → text_lt t s ≡ false
unfolding text_lt
text_lt-asymmetric s t h = ap is_lt (sym (swapped-compare s t)) ∙ is_lt-swapped (compare s t) h

module _ {ℓ} {A : Type ℓ} (less : A → A → Bool) where
  unfoldable pub place : A → List A → List A
  place x List.[] = List.◌∷◌ x List.[]
  place x (List.◌∷◌ y ys) =
      let rest = place x ys in if less y x then List.◌∷◌ y rest else List.◌∷◌ x (List.◌∷◌ y ys)

  unfoldable pub sort : List A → List A
  unfolding place
  sort List.[] = List.[]
  sort (List.◌∷◌ x xs) = place x (sort xs)

  abbrev Follows : A → List A → Type 0
  Follows x List.[] = Unit
  Follows x (List.◌∷◌ y ys) = less y x ≡ false

  -- No entry is less than the one before it.
  abbrev pub Ordered : List A → Type 0
  Ordered List.[] = Unit
  Ordered (List.◌∷◌ x xs) = Follows x xs × Ordered xs

  pub place-Perm : (x : A) (xs : List A) → Perm (place x xs) (List.◌∷◌ x xs)
  unfolding place
  place-Perm x List.[] = Perm.refl _
  place-Perm x (List.◌∷◌ y ys) = elim (Bool-cases (less y x)) [
    | inl h ↦ rw (h, place) (Perm.trans (Perm.cons y (place-Perm x ys)) (Perm.swap _ _ _))
    | inr h ↦ rw (h, place) (Perm.refl _)
  ]

  -- Sorting keeps the entries.
  pub sort-Perm : (xs : List A) → Perm (sort xs) xs
  unfolding sort
  sort-Perm List.[] = Perm.refl _
  sort-Perm (List.◌∷◌ x xs) = Perm.trans (place-Perm x (sort xs)) (Perm.cons x (sort-Perm xs))

  module _ (asymmetric : (a b : A) → less a b ≡ true → less b a ≡ false) where
    place-Follows :
        (x y : A) (ys : List A) → less y x ≡ true → Follows y ys → Follows y (place x ys)
    unfolding place
    place-Follows x y List.[] h f = asymmetric y x h
    place-Follows x y (List.◌∷◌ z zs) h f = elim (Bool-cases (less z x)) [
      | inl g ↦ rw (g, place) f
      | inr g ↦ rw (g, place) (asymmetric y x h)
    ]

    place-Ordered : (x : A) (xs : List A) → Ordered xs → Ordered (place x xs)
    unfolding place
    place-Ordered x List.[] o = (tt, tt)
    place-Ordered x (List.◌∷◌ y ys) o = elim (Bool-cases (less y x)) [
      | inl h ↦ rw (h, place) (place-Follows x y ys h o.0, place-Ordered x ys o.1)
      | inr h ↦ rw (h, place) (h, o)
    ]

    pub sort-Ordered : (xs : List A) → Ordered (sort xs)
    unfolding sort
    sort-Ordered List.[] = tt
    sort-Ordered (List.◌∷◌ x xs) = place-Ordered x (sort xs) (sort-Ordered xs)

-- How many entries pass a test.
unfoldable pub tally {ℓ} : {A : Type ℓ} → (A → Bool) → List A → ℕ
tally p List.[] = 0
tally p (List.◌∷◌ x xs) = (if p x then 1 else 0) + tally p xs

module _ {ℓ} {A : Type ℓ} (p : A → Bool) where
  pub tally-append : (xs ys : List A) → tally p (List.◌++◌ xs ys) ≡ tally p xs + tally p ys
  unfolding tally
  tally-append List.[] ys = omega arith
  tally-append (List.◌∷◌ x xs) ys = ground (arith, tally-append xs ys)

  tally-place :
      (less : A → A → Bool) (x : A) (xs : List A)
      → tally p (place less x xs) ≡ (if p x then 1 else 0) + tally p xs
  unfolding tally place
  tally-place less x List.[] = refl
  tally-place less x (List.◌∷◌ y ys) = ground (arith, tally-place less x ys)

  pub tally-sort : (less : A → A → Bool) (xs : List A) → tally p (sort less xs) ≡ tally p xs
  unfolding tally sort
  tally-sort less List.[] = refl
  tally-sort less (List.◌∷◌ x xs) =
      ground (arith, tally-place less x (sort less xs), tally-sort less xs)
