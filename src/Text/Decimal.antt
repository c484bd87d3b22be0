-- ===== src/Text/Decimal.antt =====
-- What snprintf writes for a number, `std::stoull` and `std::stoi` read back; and how long it is.
use matter_hub.Prelude.{
  ℕ, zero, suc, ◌+◌, ◌-◌, ◌*◌, ◌/◌, ◌%◌, ◌^◌, ◌<◌, ◌≤◌, ◌≡◌, refl, ap, ◌∙◌, ◌≢◌, inl, inr, List, [],
  ◌∷◌, ◌++◌, true, false, some, length, length-append, ltb, arith, Bool-cases,
}
use matter_hub.Prelude.Int.{pos}
use matter_hub.Outcome.{ret}
use matter_hub.Text.{
  is_digit, read_digits, read_magnitude, read_number, stoull, stoi, decimal_loop, decimal,
}
use native.Mathlib.Nat.{pow-suc}
use matter_hub.Text.Split.{HasNoSlash}

abbrev AllDigits : List ℕ → Type 0
AllDigits [] = Unit
AllDigits (c ∷ s) = (is_digit c ≡ true) × AllDigits s

AllDigits-append : (s t : List ℕ) → AllDigits s → AllDigits t → AllDigits (s ++ t)
AllDigits-append [] t h k = k
AllDigits-append (c ∷ s) t (h, hs) k = (h, AllDigits-append s t hs k)

digit-is_digit : (d : ℕ) → d < 10 → is_digit (b'0' + d) ≡ true
unfolding is_digit
digit-is_digit d h = ground arith

decimal_loop-AllDigits : (fuel n : ℕ) → AllDigits (decimal_loop fuel n)
unfolding decimal_loop
decimal_loop-AllDigits zero n = tt
decimal_loop-AllDigits (suc fuel) n = elim (Bool-cases (ltb n 10)) [
  | inl h ↦ rw h (digit-is_digit n (ground arith), tt)
  | inr h ↦ rw h (
      AllDigits-append (decimal_loop fuel (n / 10)) _ (decimal_loop-AllDigits fuel (n / 10))
        (digit-is_digit (n % 10) (omega arith), tt))
]

read_digits-snoc :
    (a : ℕ) (s : List ℕ) (c : ℕ)
    → AllDigits s
    → is_digit c ≡ true
    → read_digits a (s ++ c ∷ []) ≡ read_digits a s * 10 + (c - b'0')
unfolding read_digits
read_digits-snoc a [] c h k = rw k
read_digits-snoc a (d ∷ s) c (h, hs) k = rw h (read_digits-snoc (a * 10 + (d - b'0')) s c hs k)

read_digits_nil : (n : ℕ) → read_digits n [] ≡ n
unfolding read_digits
read_digits_nil n = refl

read_digits-decimal_loop : (fuel n : ℕ) → n < fuel → read_digits 0 (decimal_loop fuel n) ≡ n
unfolding decimal_loop
read_digits-decimal_loop zero n h = elim h [ ]
read_digits-decimal_loop (suc fuel) n h = elim (Bool-cases (ltb n 10)) [
  | inl small ↦ rw small (
      read_digits-snoc 0 [] (b'0' + n) tt (digit-is_digit n (ground arith))
      ∙ omega (arith, read_digits_nil 0))
  | inr large ↦ rw large (
      read_digits-snoc 0 (decimal_loop fuel (n / 10)) (b'0' + n % 10)
        (decimal_loop-AllDigits fuel (n / 10)) (digit-is_digit (n % 10) (omega arith))
      ∙ ground (arith, read_digits-decimal_loop fuel (n / 10)))
]

-- The first character is a digit.
StartsDigit : List ℕ → Type 0
StartsDigit [] = ⊥
StartsDigit (c ∷ s) = is_digit c ≡ true

StartsDigit-append : (s t : List ℕ) → StartsDigit s → StartsDigit (s ++ t)
unfolding StartsDigit
StartsDigit-append [] t h = absurd h
StartsDigit-append (c ∷ s) t h = h

decimal_loop-StartsDigit : (fuel n : ℕ) → n < fuel → StartsDigit (decimal_loop fuel n)
unfolding decimal_loop
decimal_loop-StartsDigit zero n h = elim h [ ]
decimal_loop-StartsDigit (suc fuel) n h = elim (Bool-cases (ltb n 10)) [
  | inl small ↦ rw small (unfold StartsDigit in digit-is_digit n (ground arith))
  | inr large ↦
      let rest : StartsDigit (decimal_loop fuel (n / 10)) =
        decimal_loop-StartsDigit fuel (n / 10) (ground arith) in
      rw large (StartsDigit-append (decimal_loop fuel (n / 10)) _ rest)
]

read_number-digits : (s : List ℕ) → StartsDigit s → read_number s ≡ some (false, read_digits 0 s)
unfolding read_number StartsDigit read_magnitude
read_number-digits [] h = absurd h
read_number-digits (c ∷ s) h = ground arith

decimal-read_number : (n : ℕ) → read_number (decimal n) ≡ some (false, n)
unfolding decimal
decimal-read_number n =
    read_number-digits (decimal_loop (suc n) n) (decimal_loop-StartsDigit (suc n) n (omega arith))
    ∙ ap (λ m. some (false, m)) (read_digits-decimal_loop (suc n) n (omega arith))

-- `std::stoull` reads back what `%llu` writes, for every 64-bit number.
pub stoull-decimal : (n : ℕ) → n < 2 ^ 64 → stoull (decimal n) ≡ ret n
unfolding stoull
stoull-decimal n h = rw (decimal-read_number n, stoull) (ground arith)

-- `std::stoi` reads back what `%u` writes, below 2 ^ 31.
pub stoi-decimal : (n : ℕ) → n < 2 ^ 31 → stoi (decimal n) ≡ ret (pos n)
unfolding stoi
stoi-decimal n h = rw (decimal-read_number n, stoi) (ground arith)

digit-ne-slash : (c : ℕ) → is_digit c ≡ true → c ≢ b'/'
unfolding is_digit
digit-ne-slash c h e = ground arith

HasNoSlash-digits : (s : List ℕ) → AllDigits s → HasNoSlash s
HasNoSlash-digits [] h = tt
HasNoSlash-digits (c ∷ s) (h, hs) = (digit-ne-slash c h, HasNoSlash-digits s hs)

pub decimal-HasNoSlash : (n : ℕ) → HasNoSlash (decimal n)
unfolding decimal
decimal-HasNoSlash n = HasNoSlash-digits _ (decimal_loop-AllDigits (suc n) n)

below_tenth : (m n : ℕ) → n < 10 ^ suc m → n / 10 < 10 ^ m
below_tenth m n h = let e : 10 ^ suc m ≡ 10 ^ m * 10 = pow-suc 10 m in omega arith

-- A number below 10 ^ k has k digits at most.
length-decimal_loop : (fuel k n : ℕ) → n < 10 ^ k → 0 < k → length (decimal_loop fuel n) ≤ k
unfolding decimal_loop
length-decimal_loop zero k n h p = omega arith
length-decimal_loop (suc fuel) zero n h p = absurd (omega arith)
length-decimal_loop (suc fuel) (suc zero) n h p = elim (Bool-cases (ltb n 10)) [
  | inl small ↦ rw small (omega arith)
  | inr large ↦ absurd (ground arith)
]
length-decimal_loop (suc fuel) (suc (suc k)) n h p = elim (Bool-cases (ltb n 10)) [
  | inl small ↦ rw small (omega arith)
  | inr large ↦ rw large (
      omega (
        arith,
        length-append {0} (decimal_loop fuel (n / 10)) ((b'0' + n % 10) ∷ []),
        length-decimal_loop fuel (suc k) (n / 10) (below_tenth (suc k) n h) (omega arith),
      ))
]

pub length-decimal : (k n : ℕ) → n < 10 ^ k → 0 < k → length (decimal n) ≤ k
unfolding decimal
length-decimal k n h p = length-decimal_loop (suc n) k n h p
