-- ===== src/Provider/Text.antt =====
-- What src/catalog/gr4_block_catalog_provider.cpp does with texts, a character at a time.
use Prim.Native.Char.{Char, char, code}
use Prim.Native.String.{String, [], ◌∷◌}
use mathlib.Core.List.{List}
use gnuradio4_control_plane.Prelude.{
  ℕ, ◌+◌, ◌-◌, Bool, true, false, ◌&&◌, ◌||◌, Option, none, some, if◌then◌else◌, ◌==◌, ◌<>◌, leb,
  nat_eq, ◌≡◌, refl,
}
use Prim.Native.Nat.{compare, Ordering}
use gnuradio4_control_plane.Cli.Url.{is_space}

-- The character of a number below 55296; no other is asked for.
char_by : (n : ℕ) (o : Ordering) → compare n 55296 ≡ o → Char
char_by n Ordering.lt e = char n (rw e tt)
char_by n _ e = char 0 tt

abbrev char_of : ℕ → Char
unfolding char_by
char_of n = char_by n (compare n 55296) refl

-- `std::toupper` and `std::tolower` in the "C" locale.
unfoldable pub to_upper : Char → Char
unfolding char_by
to_upper c = if leb b'a' (code c) && leb (code c) b'z' then char_of (code c - 32) else c

unfoldable pub to_lower : Char → Char
unfolding char_by
to_lower c = if leb b'A' (code c) && leb (code c) b'Z' then char_of (code c + 32) else c

abbrev is_separator : ℕ → Bool
is_separator c = nat_eq c b'_' || nat_eq c b'-' || nat_eq c b'.'

-- The loop of `to_title_case`.
unfoldable pub title_from : Bool → String → String
unfolding to_upper to_lower
title_from capitalize [] = []
title_from capitalize (c ∷ s) =
    let shown = if capitalize then to_upper c else to_lower c in
    let rest = title_from (is_separator (code c) || is_space (code shown)) s in
    (if is_separator (code c) then " " else shown) ∷ rest

unfoldable pub to_title_case : String → String
unfolding title_from
to_title_case value = title_from true value

-- What is behind the last of the characters (`find_last_of`), if there is one.
unfoldable pub behind_last : (ℕ → Bool) → String → Option String
behind_last p [] = none
behind_last p (c ∷ s) = elim (behind_last p s) [
  | some rest ↦ some rest
  | none ↦ if p (code c) then some s else none
]

-- What is before the last of the characters, and behind the first.
unfoldable pub before_last : (ℕ → Bool) → String → Option String
before_last p [] = none
before_last p (c ∷ s) = elim (before_last p s) [
  | some rest ↦ some (c ∷ rest)
  | none ↦ if p (code c) then some [] else none
]

unfoldable pub behind_first : (ℕ → Bool) → String → Option String
behind_first p [] = none
behind_first p (c ∷ s) = let rest = behind_first p s in if p (code c) then some s else rest

-- The text before a suffix, if the text ends with it.
unfoldable pub without_suffix : String → String → Option String
without_suffix suffix [] = if suffix == "" then some "" else none
without_suffix suffix (c ∷ s) =
    let rest = without_suffix suffix s in
    if suffix == c ∷ s then some "" else elim rest [ none ↦ none | some stem ↦ some (c ∷ stem) ]

abbrev is_blank : ℕ → Bool
is_blank c = nat_eq c 32 || nat_eq c 9 || nat_eq c 10 || nat_eq c 13

unfoldable pub trim_left : String → String
trim_left [] = []
trim_left (c ∷ s) = let rest = trim_left s in if is_blank (code c) then rest else c ∷ s

unfoldable pub trim_right : String → String
trim_right [] = []
trim_right (c ∷ s) =
    let rest = trim_right s in if is_blank (code c) && rest == "" then "" else c ∷ rest

unfoldable pub trim_copy : String → String
unfolding trim_left trim_right
trim_copy value = trim_right (trim_left value)

abbrev onto : Char → List String → List String
onto c List.[] = List.◌∷◌ (c ∷ []) List.[]
onto c (List.◌∷◌ s tokens) = List.◌∷◌ (c ∷ s) tokens

abbrev colon : Char → Bool
colon c = nat_eq (code c) b':'

-- The tokens between double colons, and those between colons.
unfoldable pub double_colon_tokens : String → List String
double_colon_tokens [] = List.◌∷◌ "" List.[]
double_colon_tokens (c ∷ []) = List.◌∷◌ (c ∷ []) List.[]
double_colon_tokens (c ∷ d ∷ s) = elim (colon c && colon d) [
  | true ↦ List.◌∷◌ "" (double_colon_tokens s)
  | false ↦ onto c (double_colon_tokens (d ∷ s))
]

unfoldable pub colon_tokens : String → List String
colon_tokens [] = List.◌∷◌ "" List.[]
colon_tokens (c ∷ s) =
    let rest = colon_tokens s in if colon c then List.◌∷◌ "" rest else onto c rest

unfoldable pub filled_tokens : List String → List String
filled_tokens List.[] = List.[]
filled_tokens (List.◌∷◌ s tokens) =
    let rest = filled_tokens tokens in if s == "" then rest else List.◌∷◌ s rest

-- The loops that put a separator before a text unless nothing is before it.
unfoldable pub joined_from : String → String → List String → String
joined_from separator so_far List.[] = so_far
joined_from separator so_far (List.◌∷◌ s tokens) =
    joined_from separator (if so_far == "" then s else so_far <> separator <> s) tokens

title_of : to_title_case "my_block-NAME x" ≡ "My Block Name X"
unfolding to_title_case
title_of = refl

tokens_of :
    double_colon_tokens "gr::basic:::A::"
    ≡ List.◌∷◌ "gr" (List.◌∷◌ "basic" (List.◌∷◌ ":A" (List.◌∷◌ "" List.[])))
unfolding double_colon_tokens
tokens_of = refl
