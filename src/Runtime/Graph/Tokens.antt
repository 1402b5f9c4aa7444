-- ===== src/Runtime/Graph/Tokens.antt =====
-- What `normalize_port` of src/runtime/gr4_runtime_manager.cpp makes of the tokens that name a port by
-- its number.
use Prim.Native.String.{String}
use mathlib.Core.Bool.{false≢true}
use gnuradio4_control_plane.Prelude.{
  ℕ, ◌^◌, ◌≡◌, ◌≢◌, refl, sym, ap, ◌∙◌, true, false, none, List, [], ◌∷◌, if◌then◌else◌, ◌==◌,
  arith, ltb, eq_iff, Bool-cases, inl, inr,
}
use gnuradio4_control_plane.Errors.{Result, ok, err, std_error}
use gnuradio4_control_plane.Runtime.Graph.Ports.{
  codes, PortToken, port_number, port_text, all_digits, number_from, after_t, spelled, as_number,
  port_of_codes, normalize_port,
}

-- A token is another text than one with other characters.
other_text : (token t : String) → codes token ≢ codes t → (token == t) ≡ false
other_text token t h = elim (Bool-cases (token == t)) [
  | inl e ↦ absurd (h (ap codes ((eq_iff token t).0 e)))
  | inr e ↦ e
]

digits-no_t : (s : List ℕ) → all_digits s ≡ true → after_t s ≡ none
unfolding all_digits after_t
digits-no_t [] h = refl
digits-no_t (c ∷ s) h = ground (arith, digits-no_t s)

-- What digits are read as: their number, if it is one of `std::int64_t`, and an exception otherwise.
abbrev pub read_number : List ℕ → Result PortToken
read_number s =
    if ltb (number_from 0 s) (2 ^ 63)
    then ok (port_number (number_from 0 s))
    else err (std_error "stoll")

as_number-read_number : (s : List ℕ) → as_number s ≡ read_number s
as_number-read_number s = ground arith

-- Digits are neither of the two names.
not_in :
    (token : String) (s : List ℕ)
    → codes token ≡ s
    → (s ≢ codes "in")
    → (s ≢ codes "out")
    → normalize_port token ≡ port_of_codes token s
unfolding normalize_port
not_in token s e a b =
    let no_in : (token == "in") ≡ false = other_text token "in" (λ h. a (sym e ∙ h)) in
    let no_out : (token == "out") ≡ false = other_text token "out" (λ h. b (sym e ∙ h)) in
    rw (no_in, no_out) (ap (port_of_codes token) e)

abbrev first_code : List ℕ → ℕ
first_code [] = 0
first_code (c ∷ s) = c

abbrev drop_two : List ℕ → List ℕ
drop_two (a ∷ b ∷ s) = s
drop_two s = s

abbrev drop_three : List ℕ → List ℕ
drop_three (a ∷ b ∷ c ∷ s) = s
drop_three s = s

module _ (token : String) (s : List ℕ) (digits : spelled s ≡ true) where
  digits-ne-in : s ≢ codes "in"
  unfolding all_digits
  digits-ne-in e = absurd (false≢true (ap spelled (sym e) ∙ digits))

  digits-ne-out : s ≢ codes "out"
  unfolding all_digits
  digits-ne-out e = absurd (false≢true (ap spelled (sym e) ∙ digits))

  -- A token of digits is read as their number.
  pub digits_read : codes token ≡ s → normalize_port token ≡ read_number s
  unfolding port_of_codes
  digits_read e = not_in token s e digits-ne-in digits-ne-out ∙ rw digits (as_number-read_number s)

  -- `out` before digits is read as their number.
  pub out_read : codes token ≡ b'o' ∷ b'u' ∷ b't' ∷ s → normalize_port token ≡ read_number s
  unfolding port_of_codes all_digits after_t
  out_read e =
      not_in token (b'o' ∷ b'u' ∷ b't' ∷ s) e (λ h. omega (arith, ap first_code h))
        (λ h. absurd (false≢true (ap spelled (ap (drop_three) (sym h)) ∙ digits)))
      ∙ ground (arith, digits-no_t s, as_number-read_number s)

  -- `in` before digits stays a text.
  pub in_read : codes token ≡ b'i' ∷ b'n' ∷ s → normalize_port token ≡ ok (port_text token)
  unfolding port_of_codes all_digits after_t
  in_read e =
      not_in token (b'i' ∷ b'n' ∷ s) e
        (λ h. absurd (false≢true (ap spelled (ap drop_two (sym h)) ∙ digits)))
        (λ h. omega (arith, ap first_code h))
      ∙ ground (arith, digits-no_t s)
