-- ===== src/Outcome.antt =====
-- What C++ code does besides returning: exceptions of the standard library that no code under
-- src/main/ catches, and the aborts of an empty `chip::Optional`, of a bad pointer and of an iterator at the
-- end. A counted
-- loop over such steps, with its rule for total correctness.
use matter_hub.Prelude.{
  ℕ, zero, suc, ◌+◌, ◌<◌, ◌≡◌, refl, List, ltb, length, get_elem?, set, Option, none, some, arith,
  if◌then◌else◌,
}

pub data Fault : Type 0 where
  out_of_range invalid_argument empty_optional null_pointer buffer_overflow : Fault
  dangling_pointer end_iterator : Fault

pub data Outcome {ℓ} (A : Type ℓ) : Type ℓ where
  ret : A → Outcome A
  fault : Fault → Outcome A

infixl 5 ◌>>=◌
abbrev pub ◌>>=◌ {ℓ κ} : {A : Type ℓ} {B : Type κ} → Outcome A → (A → Outcome B) → Outcome B
ret a >>= f = f a
fault e >>= f = fault e

module _ {ℓ} {A : Type ℓ} where
  abbrev pub or_fault : Option A → Fault → Outcome A
  or_fault none e = fault e
  or_fault (some a) e = ret a

  -- `std::vector::at`
  abbrev pub at : List A → ℕ → Outcome A
  at xs i = or_fault (get_elem? xs i) out_of_range

  -- `a[i] = v` on a C array
  abbrev pub store : List A → ℕ → A → Outcome (List A)
  store xs i v = if ltb i (length xs) then ret (set xs i v) else fault buffer_overflow

-- for (i = start; i < start + rounds; i++)
unfoldable pub for_range {ℓ} : {S : Type ℓ} → ℕ → ℕ → (ℕ → S → Outcome S) → S → Outcome S
for_range zero i body s = ret s
for_range (suc n) i body s = body i s >>= for_range n (i + 1) body

-- An invariant that every round in range keeps, without a fault, holds at the end, and there is an
-- end without a fault.
pub for_range_lem {ℓ κ} :
    {S : Type ℓ} (P : ℕ → S → Type κ) (body : ℕ → S → Outcome S) (n i j : ℕ)
    → i + n ≡ j
    → ((k : ℕ) (s : S) → k < j → P k s → (t : S) × (body k s ≡ ret t) × P (k + 1) t)
    → (s : S) → P i s
    → (t : S) × (for_range n i body s ≡ ret t) × P j t
unfolding for_range
for_range_lem P body zero i j e keep s h = let e' : i ≡ j = omega arith in (s, refl, rw (← e') h)
for_range_lem P body (suc n) i j e keep s h =
    let (t, ran, p) = keep i s (omega arith) h in
    rw ran (for_range_lem P body n (i + 1) j (omega arith) keep t p)

-- What holds of the result, if there is one.
abbrev pub Ensures {ℓ κ} : {A : Type ℓ} → (A → Type κ) → Outcome A → Type κ
Ensures P (ret a) = P a
Ensures P (fault e) = Unit

pub Ensures-bind {ℓ κ μ ν} :
    {A : Type ℓ} {B : Type κ} (P : A → Type μ) (Q : B → Type ν) (o : Outcome A) (f : A → Outcome B)
    → Ensures P o
    → ((a : A) → P a → Ensures Q (f a))
    → Ensures Q (o >>= f)
Ensures-bind P Q (ret a) f h next = next a h
Ensures-bind P Q (fault e) f h next = tt

pub Ensures-or_fault {ℓ} :
    {A : Type ℓ} (o : Option A) (e : Fault) → Ensures (λ a. o ≡ some a) (or_fault o e)
Ensures-or_fault none e = tt
Ensures-or_fault (some a) e = refl

pub Ensures_lem {ℓ} : {A : Type ℓ} (o : Outcome A) → Ensures {ℓ, 0} (λ a. Unit) o
Ensures_lem (ret a) = tt
Ensures_lem (fault e) = tt
