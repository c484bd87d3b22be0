-- ===== src/Prelude/Int.antt =====
-- Signed integers over the native numbers, and the conversions of C++ between the integer types.
use Prim.Native.Nat.{ℕ, ◌-◌, ◌%◌, ◌^◌}
use matter_hub.Prelude.Tests.{ltb, if◌then◌else◌}

-- `negsuc n` is -(n + 1).
pub data ℤ : Type 0 where
  pos : ℕ → ℤ
  negsuc : ℕ → ℤ

-- A conversion to an unsigned type of `w` bits.
unfoldable pub to_unsigned : ℕ → ℤ → ℕ
to_unsigned w (pos n) = n % 2 ^ w
to_unsigned w (negsuc n) = 2 ^ w - 1 - n % 2 ^ w

-- A conversion to a signed type of `w` bits.
unfoldable pub to_signed : ℕ → ℤ → ℤ
unfolding to_unsigned
to_signed w z =
    let u = to_unsigned w z in if ltb u (2 ^ (w - 1)) then pos u else negsuc (2 ^ w - 1 - u)
