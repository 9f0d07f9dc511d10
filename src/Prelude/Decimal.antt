-- ===== src/Prelude/Decimal.antt =====
-- Decimal numbers as texts: `to_string` and `parse` of the unsigned integer types.
pub mod Laws
use Prim.Native.Nat.{ℕ, zero, suc, ◌+◌, ◌-◌, ◌*◌, ◌/◌, ◌%◌}
use Prim.Native.Char.{Char, code}
use Prim.Native.String.{String, [], ◌∷◌}
use mathlib.Core.Bool.{Bool, ◌&&◌}
use mathlib.Core.Option.{Option, none, some}
use http_dragonfly.Prelude.Tests.{ltb, leb, eqb, if◌then◌else◌}

unfoldable pub digit : ℕ → Char
digit n =
    if eqb n 0
    then "0"
    else if eqb n 1
    then "1"
    else if eqb n 2
    then "2"
    else if eqb n 3
    then "3"
    else if eqb n 4
    then "4"
    else if eqb n 5
    then "5"
    else if eqb n 6
    then "6"
    else if eqb n 7
    then "7"
    else if eqb n 8
    then "8"
    else "9"

-- The digits of `n` before the text `s`; `n` rounds are enough.
unfoldable pub print_before : ℕ → ℕ → String → String
unfolding digit
print_before zero n s = digit n ∷ s
print_before (suc f) n s =
    let more = print_before f (n / 10) (digit (n % 10) ∷ s) in
    if ltb n 10 then digit n ∷ s else more

-- `to_string` of an unsigned integer.
unfoldable pub decimal : ℕ → String
unfolding print_before
decimal n = print_before n n []

unfoldable pub is_digit : ℕ → Bool
is_digit c = leb b'0' c && leb c b'9'

-- Reading digits into an accumulator, up to a largest value.
unfoldable pub read_digits : ℕ → ℕ → String → Option ℕ
unfolding is_digit
read_digits most n [] = some n
read_digits most n (c ∷ s) =
    let next = n * 10 + (code c - 48) in
    let rest = read_digits most next s in
    if is_digit (code c) then (if leb next most then rest else none) else none

-- `parse` of an unsigned integer type with the largest value `most`: a `+` may stand first.
unfoldable pub parse_unsigned : ℕ → String → Option ℕ
unfolding read_digits
parse_unsigned most [] = none
parse_unsigned most (c ∷ []) = read_digits most 0 (c ∷ [])
parse_unsigned most (c ∷ d ∷ s) =
    if eqb (code c) b'+' then read_digits most 0 (d ∷ s) else read_digits most 0 (c ∷ d ∷ s)
