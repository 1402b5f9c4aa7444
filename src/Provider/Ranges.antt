-- ===== src/Provider/Ranges.antt =====
-- The range of the counts of src/catalog/gr4_block_catalog_provider.cpp for a collection of ports.
use gnuradio4_control_plane.Prelude.{
  ℕ, zero, suc, String, Option, none, some, arith, Bool-cases, inl, inr,
}
use gnuradio4_control_plane.Catalog.{ℤ, pos}
use gnuradio4_control_plane.Provider.Fields.{to_int}
use gnuradio4_control_plane.Provider.Fits.{IsInt, OptionIsInt}
use gnuradio4_control_plane.Provider.Ports.{port_count_lower_bound, port_count_upper_bound, ltb_ℤ}
use gnuradio4_control_plane.Provider.Collections.{at_least, at_most, bounded_or, bound_or, positive}

pub to_int-pos : (n : ℕ) → IsInt (to_int (pos n))
to_int-pos n = ground arith

at_least-IsInt : (o : Option ℤ) (z : ℤ) → OptionIsInt o → IsInt z → IsInt (at_least o z)
unfolding ltb_ℤ
at_least-IsInt none z h g = g
at_least-IsInt (some m) z h g = elim (Bool-cases (ltb_ℤ z m)) [ inl e ↦ rw e h | inr e ↦ rw e g ]

at_most-IsInt : (o : Option ℤ) (z : ℤ) → OptionIsInt o → IsInt z → IsInt (at_most o z)
unfolding ltb_ℤ
at_most-IsInt none z h g = g
at_most-IsInt (some m) z h g = elim (Bool-cases (ltb_ℤ m z)) [
  | inl e ↦ elim (Bool-cases (ltb_ℤ m (pos 0))) [ inl d ↦ rw (e, d) g | inr d ↦ rw (e, d) h ]
  | inr e ↦ elim (Bool-cases (ltb_ℤ m (pos 0))) [ inl d ↦ rw (e, d) g | inr d ↦ rw (e, d) g ]
]

positive-IsInt : (o : Option ℤ) → OptionIsInt o → OptionIsInt (positive o)
unfolding ltb_ℤ
positive-IsInt none h = tt
positive-IsInt (some m) h = elim (Bool-cases (ltb_ℤ (pos 0) m)) [ inl e ↦ rw e h | inr e ↦ rw e tt ]

pub bounded_or-IsInt :
    (o low high : Option ℤ) (n : ℕ)
    → OptionIsInt o
    → OptionIsInt low
    → OptionIsInt high
    → OptionIsInt (bounded_or o n low high)
bounded_or-IsInt none low high zero h l u = positive-IsInt low l
bounded_or-IsInt none low high (suc n) h l u = to_int-pos (suc n)
bounded_or-IsInt (some z) low high n h l u =
    at_most-IsInt high (at_least low z) u (at_least-IsInt low z l h)

pub lower-IsInt :
    (o : Option String) (otherwise : Option ℤ)
    → OptionIsInt otherwise
    → OptionIsInt (bound_or port_count_lower_bound o otherwise)
unfolding port_count_lower_bound
lower-IsInt none otherwise h = h
lower-IsInt (some name) otherwise h = ground (arith, h)

pub upper-IsInt :
    (o : Option String) (otherwise : Option ℤ)
    → OptionIsInt otherwise
    → OptionIsInt (bound_or port_count_upper_bound o otherwise)
unfolding port_count_upper_bound
upper-IsInt none otherwise h = h
upper-IsInt (some name) otherwise h = ground (arith, h)
