-- ===== src/Prelude/Decimal.antt =====
-- A number in decimal, as `std::format("{}", n)` and `std::to_string` print it.
use Prim.Native.Nat.{ℕ, zero, suc, ◌+◌, ◌/◌, ◌%◌}
use Prim.Native.Char.{Char}
use Prim.Native.String.{String}
use mathlib.Core.Path.{◌≡◌, refl}
use mathlib.Core.Bool.{true, false}
use gnuradio4_control_plane.Prelude.Tests.{ltb, nat_eq, if◌then◌else◌}

unfoldable pub decimal_digit : ℕ → Char
decimal_digit d =
    if nat_eq d 0
    then "0"
    else if nat_eq d 1
    then "1"
    else if nat_eq d 2
    then "2"
    else if nat_eq d 3
    then "3"
    else if nat_eq d 4
    then "4"
    else if nat_eq d 5
    then "5"
    else if nat_eq d 6
    then "6"
    else if nat_eq d 7
    then "7"
    else if nat_eq d 8
    then "8"
    else "9"

-- The fuel bounds the number of digits.
unfoldable pub decimal_from : ℕ → ℕ → String → String
unfolding decimal_digit
decimal_from zero n rest = rest
decimal_from (suc fuel) n rest =
    let digits = String.◌∷◌ (decimal_digit (n % 10)) rest in
    elim (ltb n 10) [ true ↦ digits | false ↦ decimal_from fuel (n / 10) digits ]

unfoldable pub decimal : ℕ → String
unfolding decimal_from
decimal n = decimal_from (n + 1) n ""

decimal_example : decimal 40817 ≡ "40817"
unfolding decimal
decimal_example = refl
