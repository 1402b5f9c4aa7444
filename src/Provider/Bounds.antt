-- ===== src/Provider/Bounds.antt =====
-- The bounds of the number of ports to draw of a collection, in
-- src/catalog/gr4_block_catalog_provider.cpp.
use gnuradio4_control_plane.Prelude.{
  ℕ, zero, suc, ◌≤◌, String, Bool, true, false, Option, none, some, List, ◌≡◌, refl, ◌⊎◌, inl, inr,
  arith, length, if◌then◌else◌, nat_eq, subst,
}
use gnuradio4_control_plane.Catalog.{ℤ, pos, negsuc, BlockParameterDescriptor, BlockPortDescriptor}
use gnuradio4_control_plane.Provider.Model.{DynamicPort, collection}
use gnuradio4_control_plane.Provider.Ports.{
  ltb_ℤ, is_port_count, port_count_lower_bound, port_count_upper_bound,
  infer_collection_size_parameter, size_default,
}
use gnuradio4_control_plane.Provider.Collections.{
  bounded_or, bound_or, infer_collection_render_port_count, infer_collection_metadata,
  to_port_descriptor,
}

abbrev AtLeast : Option ℤ → ℤ → Type 0
AtLeast none r = Unit
AtLeast (some m) r = ltb_ℤ r m ≡ false

-- A negative bound is none.
abbrev AtMost : Option ℤ → ℤ → Type 0
AtMost none r = Unit
AtMost (some m) r = (ltb_ℤ m (pos 0) ≡ true) ⊎ (ltb_ℤ m r ≡ false)

abbrev Within : Option ℤ → Option ℤ → Option ℤ → Type 0
Within low high none = Unit
Within low high (some r) = AtLeast low r × AtMost high r

abbrev pub DrawnWithin : BlockPortDescriptor → Type 0
DrawnWithin port = Within port.min_port_count port.max_port_count port.render_port_count

unbounded-Within :
    (o : Option ℤ) (n : ℕ)
    → n ≤ 2147483647
    → Within
        (some (if nat_eq n 0 then pos 0 else pos 1))
        (some (negsuc 0))
        (bounded_or o n (some (if nat_eq n 0 then pos 0 else pos 1)) (some (negsuc 0)))
unfolding ltb_ℤ
unbounded-Within none zero h = tt
unbounded-Within none (suc n) h = (ground arith, inl refl)
unbounded-Within (some (pos z)) zero h = (ground arith, inl refl)
unbounded-Within (some (negsuc z)) zero h = (ground arith, inl refl)
unbounded-Within (some (pos z)) (suc n) h = (ground arith, inl refl)
unbounded-Within (some (negsuc z)) (suc n) h = (ground arith, inl refl)

counted-Within :
    (o : Option ℤ) (n : ℕ)
    → (o ≡ none → n ≤ 32)
    → Within (some (pos 1)) (some (pos 32)) (bounded_or o n (some (pos 1)) (some (pos 32)))
unfolding ltb_ℤ
counted-Within none zero h = (refl, inr refl)
counted-Within none (suc n) h = let few = h refl in (ground arith, inr (ground arith))
counted-Within (some (pos z)) n h = (ground arith, inr (ground arith))
counted-Within (some (negsuc z)) n h = (refl, inr refl)

-- The bounds are those of a size parameter, if it counts ports.
bounds-Within :
    (size : Option String) (o : Option ℤ) (n : ℕ)
    → n ≤ 2147483647
    → ((count : String) → size ≡ some count → is_port_count count ≡ true → o ≡ none → n ≤ 32)
    → let low = bound_or port_count_lower_bound size (some (if nat_eq n 0 then pos 0 else pos 1)) in
      let high = bound_or port_count_upper_bound size (some (negsuc 0)) in
      Within low high (bounded_or o n low high)
unfolding port_count_lower_bound port_count_upper_bound ltb_ℤ
bounds-Within none o n int h = unbounded-Within o n int
bounds-Within (some name) o n int h = by_count (is_port_count name) (h name refl)
  where
    by_count :
        (b : Bool)
        → (b ≡ true → o ≡ none → n ≤ 32)
        → let low =
            bound_or
              (λ _. if b then some (pos 1) else none)
              (some name)
              (some (if nat_eq n 0 then pos 0 else pos 1)) in
          let high =
            bound_or (λ _. if b then some (pos 32) else none) (some name) (some (negsuc 0)) in
          Within low high (bounded_or o n low high)
    by_count true h = counted-Within o n (h refl)
    by_count false h = unbounded-Within o n int

-- Of a collection whose number of ports is an `int`, and is at most 32 if the size parameter counts
-- ports and has no `int` as its default, the number of ports to draw, where there is one, is not
-- less than the lower bound, and not more than the upper bound unless that is negative.
pub to_port_descriptor-DrawnWithin :
    {D : Type 0} (name block_id : String) (ports : List DynamicPort)
    (parameters : List (BlockParameterDescriptor D)) (is_input : Bool)
    → length ports ≤ 2147483647
    → ((count : String)
        → infer_collection_size_parameter name is_input parameters ≡ some count
        → is_port_count count ≡ true
        → size_default (some count) parameters ≡ none
        → length ports ≤ 32)
    → DrawnWithin (to_port_descriptor (collection name ports) block_id parameters is_input)
unfolding to_port_descriptor infer_collection_metadata infer_collection_render_port_count
to_port_descriptor-DrawnWithin name block_id ports parameters is_input int h =
    bounds-Within size (size_default size parameters) (length ports) int
      (λ count same counts no_default.
        h count same counts (subst (λ s. size_default s parameters ≡ none) same no_default))
  where
    size : Option String
    size = infer_collection_size_parameter name is_input parameters
