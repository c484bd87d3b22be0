-- ===== src/Text.antt =====
-- The texts that src/main/include/CloudConnector.h takes apart and builds, as lists of character
-- codes: its loops over `std::string`, and what it uses of the standard library.
pub mod Split
pub mod Decimal
pub mod Tests
use matter_hub.Prelude.{
  ℕ, zero, suc, ◌+◌, ◌-◌, ◌*◌, ◌/◌, ◌%◌, ◌^◌, List, [], ◌∷◌, ◌++◌, Bool, true, false, ◌&&◌, ◌||◌,
  Option, none, some, take, drop, length, ltb, leb, ◌==◌, if◌then◌else◌,
}
use matter_hub.Prelude.Int.{ℤ, pos, negsuc}
use matter_hub.Outcome.{Outcome, ret, fault, out_of_range, invalid_argument}
use mathlib.Core.Option

-- `s.find(delimiter)`, where `none` is npos.
starts_with : List ℕ → List ℕ → Bool
starts_with [] s = true
starts_with (d ∷ ds) [] = false
starts_with (d ∷ ds) (c ∷ s) = c == d && starts_with ds s

unfoldable pub find : List ℕ → List ℕ → Option ℕ
unfolding starts_with
find delimiter [] = if starts_with delimiter [] then some 0 else none
find delimiter (c ∷ s) =
    let rest = find delimiter s in
    if starts_with delimiter (c ∷ s) then some 0 else Option.map suc rest

-- The while loop that DCMD_callback runs over the topic and over each name, with the last
-- `push_back`. `none` means that the fuel ran out.
unfoldable pub split_loop : ℕ → List ℕ → List ℕ → List (List ℕ) → Option (List (List ℕ))
split_loop zero delimiter s tokens = none
split_loop (suc fuel) delimiter s tokens = elim (find delimiter s) [
  | none ↦ some (tokens ++ s ∷ [])
  | some position ↦
      split_loop fuel delimiter (drop (position + length delimiter) s)
        (tokens ++ take position s ∷ [])
]

abbrev pub slash : List ℕ
slash = b'/' ∷ []

unfoldable pub split : List ℕ → Option (List (List ℕ))
unfolding split_loop find
split s = split_loop (suc (length s)) slash s []

-- `strtol` and its kin at base 10: white space, a sign, and the digits up to another character.
-- `none` means that there is no digit.
is_digit : ℕ → Bool
is_digit c = leb b'0' c && leb c b'9'

is_space : ℕ → Bool
is_space c = c == 32 || leb 9 c && leb c 13

skip_space : List ℕ → List ℕ
unfolding is_space
skip_space [] = []
skip_space (c ∷ s) = let rest = skip_space s in if is_space c then rest else c ∷ s

read_digits : ℕ → List ℕ → ℕ
unfolding is_digit
read_digits n [] = n
read_digits n (c ∷ s) =
    let rest = read_digits (n * 10 + (c - b'0')) s in if is_digit c then rest else n

read_magnitude : List ℕ → Option ℕ
unfolding is_digit read_digits
read_magnitude [] = none
read_magnitude (c ∷ s) = if is_digit c then some (read_digits 0 (c ∷ s)) else none

-- The sign, where `true` is minus, and the magnitude.
read_sign : List ℕ → Option (Bool × ℕ)
unfolding read_magnitude
read_sign [] = none
read_sign (c ∷ s) =
    if c == b'-'
    then Option.map (λ n. (true, n)) (read_magnitude s)
    else if c == b'+'
    then Option.map (λ n. (false, n)) (read_magnitude s)
    else Option.map (λ n. (false, n)) (read_magnitude (c ∷ s))

read_number : List ℕ → Option (Bool × ℕ)
unfolding skip_space read_sign
read_number s = read_sign (skip_space s)

-- `std::stoull`, with 64 bits: a minus sign negates modulo 2 ^ 64.
unfoldable pub stoull : List ℕ → Outcome ℕ
unfolding read_number
stoull s = elim (read_number s) [
  | none ↦ fault invalid_argument
  | some (negative, n) ↦
      if leb (2 ^ 64) n
      then fault out_of_range
      else if negative
      then ret ((2 ^ 64 - n) % 2 ^ 64)
      else ret n
]

-- `std::stoi`, with 32 bits.
unfoldable pub stoi : List ℕ → Outcome ℤ
unfolding read_number
stoi s = elim (read_number s) [
  | none ↦ fault invalid_argument
  | some (negative, n) ↦
      if negative
      then (if leb n (2 ^ 31)
          then (if n == 0 then ret (pos 0) else ret (negsuc (n - 1)))
          else fault out_of_range)
      else if ltb n (2 ^ 31)
      then ret (pos n)
      else fault out_of_range
]

-- `%u` and `%llu` of snprintf: the decimal digits, on fuel above the number.
decimal_loop : ℕ → ℕ → List ℕ
decimal_loop zero n = []
decimal_loop (suc fuel) n =
    let rest = decimal_loop fuel (n / 10) in
    if ltb n 10 then (b'0' + n) ∷ [] else rest ++ (b'0' + n % 10) ∷ []

unfoldable pub decimal : ℕ → List ℕ
unfolding decimal_loop
decimal n = decimal_loop (suc n) n

-- `%d`
unfoldable pub decimal_int : ℤ → List ℕ
unfolding decimal
decimal_int (pos n) = decimal n
decimal_int (negsuc n) = b'-' ∷ decimal (n + 1)

-- snprintf with a buffer of `size` bytes keeps all but the last for characters.
unfoldable pub snprintf : ℕ → List ℕ → List ℕ
snprintf size s = take (size - 1) s
