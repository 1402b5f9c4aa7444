-- ===== src/Runtime/Graph/Ports.antt =====
-- `normalize_port` of src/runtime/gr4_runtime_manager.cpp: a port's token as GNU Radio names ports.
-- A text is the list of its characters' numbers.
use Prim.Native.Char.{code}
use Prim.Native.String.{String}
use gnuradio4_control_plane.Prelude.{
  ℕ, ◌+◌, ◌-◌, ◌*◌, ◌^◌, Bool, true, false, ◌&&◌, ◌||◌, not, Option, none, some, List, [], ◌∷◌,
  if◌then◌else◌, ◌==◌, ltb, leb, nat_eq, length,
}
use gnuradio4_control_plane.Errors.{Result, ok, err, std_error}
use gnuradio4_control_plane.Results.{◌>>=◌}

abbrev pub codes : String → List ℕ
codes String.[] = []
codes (String.◌∷◌ c s) = code c ∷ codes s

pub data PortToken : Type 0 where
  port_number : ℕ → PortToken
  port_text : String → PortToken

abbrev pub is_digit : ℕ → Bool
is_digit c = leb b'0' c && leb c b'9'

unfoldable pub all_digits : List ℕ → Bool
all_digits [] = true
all_digits (c ∷ s) = is_digit c && all_digits s

-- The number that digits spell behind `n`.
unfoldable pub number_from : ℕ → List ℕ → ℕ
number_from n [] = n
number_from n (c ∷ s) = number_from (n * 10 + (c - b'0')) s

-- `std::stoll` on digits: a number beyond `std::int64_t` is `std::out_of_range`.
abbrev pub stoll : List ℕ → Result ℕ
stoll s = if ltb (number_from 0 s) (2 ^ 63) then ok (number_from 0 s) else err (std_error "stoll")

-- `token.substr(token.rfind('t') + 1)`: what follows the last `t`, and all of it where there is none,
-- since `npos + 1` is 0.
unfoldable pub after_t : List ℕ → Option (List ℕ)
after_t [] = none
after_t (c ∷ s) = elim (after_t s) [
  | some rest ↦ some rest
  | none ↦ if nat_eq c b't' then some s else none
]

abbrev suffix_of : List ℕ → Option (List ℕ) → List ℕ
suffix_of token none = token
suffix_of token (some suffix) = suffix

abbrev starts_in : List ℕ → Bool
starts_in (a ∷ b ∷ s) = nat_eq a b'i' && nat_eq b b'n'
starts_in _ = false

abbrev starts_out : List ℕ → Bool
starts_out (a ∷ b ∷ c ∷ s) = nat_eq a b'o' && nat_eq b b'u' && nat_eq c b't'
starts_out _ = false

abbrev pub spelled : List ℕ → Bool
spelled s = not (nat_eq (length s) 0) && all_digits s

abbrev pub as_number : List ℕ → Result PortToken
as_number s = do n ← stoll s; ok (port_number n)

-- The tests behind the first one, on the token's characters.
unfoldable pub port_of_codes : String → List ℕ → Result PortToken
unfolding all_digits number_from after_t
port_of_codes token s =
    let suffix = suffix_of s (after_t s) in
    if spelled s
    then as_number s
    else if ltb 2 (length s) && (starts_in s || starts_out s) && spelled suffix
    then as_number suffix
    else ok (port_text token)

unfoldable pub normalize_port : String → Result PortToken
unfolding port_of_codes
normalize_port token =
    if token == "in" || token == "out"
    then ok (port_number 0)
    else port_of_codes token (codes token)
