-- ===== src/Http/Targets.antt =====
-- The target of a websocket request in src/api/http_server.cpp: `decode_percent_encoded` and
-- `parse_websocket_stream_target`. A text is the list of its characters' numbers.
pub mod Paths
use gnuradio4_control_plane.Prelude.{
  ℕ, zero, suc, ◌+◌, ◌-◌, ◌*◌, ◌%◌, Bool, true, false, ◌&&◌, ◌||◌, Option, none, some, List, [],
  ◌∷◌, if◌then◌else◌, leb, nat_eq, length,
}
use gnuradio4_control_plane.Errors.{Result, ok, err, std_error}
use gnuradio4_control_plane.Results.{◌>>=◌, ◌>>◌}
use gnuradio4_control_plane.Runtime.Graph.Ports.{codes, is_digit}
use gnuradio4_control_plane.Cli.Url.{behind, is_space}

abbrev hex_value : ℕ → Option ℕ
hex_value c =
    if is_digit c
    then some (c - b'0')
    else if leb b'a' c && leb c b'f'
    then some (c - b'a' + 10)
    else if leb b'A' c && leb c b'F'
    then some (c - b'A' + 10)
    else none

abbrev no_number : Result ℕ
no_number = err (std_error "stoi")

abbrev value_or_throw : Option ℕ → Result ℕ
value_or_throw none = no_number
value_or_throw (some n) = ok n

abbrev negated : Option ℕ → Result ℕ
negated none = no_number
negated (some n) = ok ((256 - n) % 256)

-- `std::stoi` skips a space and reads a sign, and stops before what is no digit.
abbrev two_digits : Option ℕ → Option ℕ → Result ℕ
two_digits none second = no_number
two_digits (some m) none = ok m
two_digits (some m) (some n) = ok (m * 16 + n)

-- `static_cast<char>(std::stoi(hex, nullptr, 16))` of two characters.
unfoldable pub hex_byte : ℕ → ℕ → Result ℕ
hex_byte a b =
    if is_space a || nat_eq a b'+'
    then value_or_throw (hex_value b)
    else if nat_eq a b'-'
    then negated (hex_value b)
    else two_digits (hex_value a) (hex_value b)

abbrev byte_of : List ℕ → Result ℕ
byte_of (a ∷ b ∷ s) = hex_byte a b
byte_of _ = no_number

abbrev pub is_encoded : ℕ → List ℕ → Bool
is_encoded c s = nat_eq c b'%' && leb 2 (length s)

abbrev pub decoded_one : ℕ → List ℕ → Result ℕ
decoded_one c s = if is_encoded c s then byte_of s else ok (if nat_eq c b'+' then 32 else c)

-- The loop, with the number of characters that `index` has passed by already.
unfoldable pub decode_from : ℕ → List ℕ → Result (List ℕ)
unfolding hex_byte
decode_from skip [] = ok []
decode_from (suc skip) (c ∷ s) = decode_from skip s
decode_from zero (c ∷ s) = do
  let rest = decode_from (if is_encoded c s then 2 else 0) s
  byte ← decoded_one c s
  bytes ← rest
  ok (byte ∷ bytes)

unfoldable pub decode_percent_encoded : List ℕ → Result (List ℕ)
unfolding decode_from
decode_percent_encoded value = decode_from 0 value

-- `target.substr(0, target.find('?'))`.
unfoldable pub before_query : List ℕ → List ℕ
before_query [] = []
before_query (c ∷ s) = let rest = before_query s in if nat_eq c b'?' then [] else c ∷ rest

unfoldable pub same_codes : List ℕ → List ℕ → Bool
same_codes [] [] = true
same_codes (c ∷ s) (d ∷ t) = nat_eq c d && same_codes s t
same_codes _ _ = false

unfoldable pub ends_with : List ℕ → List ℕ → Bool
unfolding same_codes
ends_with suffix [] = same_codes [] suffix
ends_with suffix (c ∷ s) = same_codes (c ∷ s) suffix || ends_with suffix s

abbrev pub split_here : ℕ → Option (List ℕ) → Option (List ℕ × List ℕ) → Option (List ℕ × List ℕ)
split_here c (some after) rest = some ([], after)
split_here c none none = none
split_here c none (some (before, after)) = some (c ∷ before, after)

-- What is before the first `inner` and behind it.
unfoldable pub split_at : List ℕ → List ℕ → Option (List ℕ × List ℕ)
unfolding behind
split_at inner [] = none
split_at inner (c ∷ s) = split_here c (behind inner (c ∷ s)) (split_at inner s)

unfoldable pub take : ℕ → List ℕ → List ℕ
take zero s = []
take (suc n) [] = []
take (suc n) (c ∷ s) = c ∷ take n s

unfoldable pub has_slash : List ℕ → Bool
has_slash [] = false
has_slash (c ∷ s) = nat_eq c b'/' || has_slash s

abbrev with_stream : List ℕ → Result (List ℕ) → Result (Option (List ℕ × List ℕ))
with_stream session_id (err e) = err e
with_stream session_id (ok stream_id) = ok (some (session_id, stream_id))

-- The session id must not be empty or have a slash, and the stream id must not be empty.
abbrev pub target_of : Option (List ℕ × List ℕ) → Result (Option (List ℕ × List ℕ))
target_of none = ok none
target_of (some (session_id, after)) =
    if nat_eq (length session_id) 0 || leb (length after) 3 || has_slash session_id
    then ok none
    else with_stream session_id (decode_percent_encoded (take (length after - 3) after))

abbrev pub within : List ℕ → Option (List ℕ) → Result (Option (List ℕ × List ℕ))
within route none = ok none
within route (some rest) =
    if ends_with (codes "/ws") route then target_of (split_at (codes "/streams/") rest) else ok none

unfoldable pub parse_websocket_stream_target : List ℕ → Result (Option (List ℕ × List ℕ))
unfolding before_query behind ends_with split_at take has_slash decode_percent_encoded
parse_websocket_stream_target target =
    within (before_query target) (behind (codes "/sessions/") (before_query target))
