-- ===== src/Cli/Url.antt =====
-- `parse_url` of src/cli/cli.cpp. A text is the list of its characters' numbers.
use gnuradio4_control_plane.Prelude.{
  ℕ, ◌-◌, ◌^◌, String, Bool, true, false, ◌&&◌, ◌||◌, Option, none, some, List, [], ◌∷◌,
  if◌then◌else◌, leb, nat_eq,
}
use gnuradio4_control_plane.Errors.{Result, ok, err, std_error}
use gnuradio4_control_plane.Catalog.{ℤ, pos, negsuc}
use gnuradio4_control_plane.Runtime.Graph.Ports.{codes, is_digit, number_from}

-- `text.starts_with(prefix)`, and the text behind it.
unfoldable pub behind : List ℕ → List ℕ → Option (List ℕ)
behind [] s = some s
behind (c ∷ prefix) [] = none
behind (c ∷ prefix) (d ∷ s) = let rest = behind prefix s in if nat_eq c d then rest else none

-- What is before the last colon and behind it (`rfind`).
unfoldable pub split_colon : List ℕ → Option (List ℕ × List ℕ)
split_colon [] = none
split_colon (c ∷ s) = elim (split_colon s) [
  | some (host, port) ↦ some (c ∷ host, port)
  | none ↦ if nat_eq c b':' then some ([], s) else none
]

-- `std::isspace` in the "C" locale.
abbrev pub is_space : ℕ → Bool
is_space c = nat_eq c 32 || (leb 9 c && leb c 13)

unfoldable pub skip_spaces : List ℕ → List ℕ
skip_spaces [] = []
skip_spaces (c ∷ s) = let rest = skip_spaces s in if is_space c then rest else c ∷ s

-- The digits at the head.
unfoldable pub leading_digits : List ℕ → List ℕ
leading_digits [] = []
leading_digits (c ∷ s) = let rest = leading_digits s in if is_digit c then c ∷ rest else []

abbrev signed : Bool → ℕ → ℤ
signed true n = if nat_eq n 0 then pos 0 else negsuc (n - 1)
signed false n = pos n

-- A number of the digits at the head, if there are any and it is an `int`.
abbrev int_of : Bool → List ℕ → Option ℤ
int_of negative [] = none
int_of negative (c ∷ s) =
    if leb (number_from 0 (c ∷ s)) (if negative then 2 ^ 31 else 2 ^ 31 - 1)
    then some (signed negative (number_from 0 (c ∷ s)))
    else none

abbrev after_sign : List ℕ → Option ℤ
after_sign [] = none
after_sign (c ∷ s) =
    if nat_eq c b'-'
    then int_of true (leading_digits s)
    else int_of false (leading_digits (if nat_eq c b'+' then s else c ∷ s))

-- `std::stoi`: what follows the digits is ignored.
unfoldable pub stoi : List ℕ → Option ℤ
unfolding skip_spaces leading_digits number_from
stoi s = after_sign (skip_spaces s)

pub record ParsedUrl : Type 0 where
  pub host : List ℕ
  pub port : ℤ

abbrev with_port : List ℕ → Option ℤ → Result ParsedUrl
with_port host none = err (std_error "server URL port must be numeric")
with_port host (some port) = ok (record { host = host; port = port })

-- Neither part may be empty.
abbrev host_and_port : Option (List ℕ × List ℕ) → Result ParsedUrl
host_and_port (some (h ∷ host, p ∷ port)) = with_port (h ∷ host) (stoi (p ∷ port))
host_and_port _ = err (std_error "server URL must be in the form http://host:port")

abbrev behind_scheme : Option (List ℕ) → Result ParsedUrl
behind_scheme none = err (std_error "only http:// URLs are supported")
behind_scheme (some []) = err (std_error "server URL must include a host")
behind_scheme (some (c ∷ s)) = host_and_port (split_colon (c ∷ s))

unfoldable pub parse_url : String → Result ParsedUrl
unfolding behind split_colon stoi
parse_url url = behind_scheme (behind (codes "http://") (codes url))
