-- ===== src/OrderedMap.antt =====
-- `std::map`: an association list in the order of its keys, over an interface for the keys. An
-- iterator is the key of the element that it points to, or `none` at the end.
pub mod Ids
pub mod Kept
use matter_hub.Prelude.{
  ℕ, ◌≡◌, ◌↔◌, refl, List, [], ◌∷◌, Bool, true, false, ◌&&◌, ◌||◌, Option, none, some, ltb, ◌==◌,
  ==_iff, if◌then◌else◌, arith,
}

pub record Key {ℓ} (K : Type ℓ) : Type ℓ where
  pub beq : K → K → Bool
  pub less : K → K → Bool
  pub beq_iff : (a b : K) → (beq a b ≡ true) ↔ (a ≡ b)

-- `std::string`: equality, and the lexicographic order.
unfoldable pub text_eq : List ℕ → List ℕ → Bool
text_eq [] [] = true
text_eq [] (d ∷ t) = false
text_eq (c ∷ s) [] = false
text_eq (c ∷ s) (d ∷ t) = c == d && text_eq s t

unfoldable pub text_less : List ℕ → List ℕ → Bool
text_less s [] = false
text_less [] (d ∷ t) = true
text_less (c ∷ s) (d ∷ t) = ltb c d || (c == d && text_less s t)

pub text_eq_iff : (s t : List ℕ) → (text_eq s t ≡ true) ↔ (s ≡ t)
unfolding text_eq
text_eq_iff [] [] = (λ h. refl, λ h. refl)
text_eq_iff [] (d ∷ t) = (λ h. cc, λ h. cc)
text_eq_iff (c ∷ s) [] = (λ h. cc, λ h. cc)
text_eq_iff (c ∷ s) (d ∷ t) =
    (λ h. ground (arith, text_eq_iff s t), λ h. ground (arith, text_eq_iff s t))

instance abbrev pub text_key : Key (List ℕ)
text_key = record { beq = text_eq; less = text_less; beq_iff = text_eq_iff }

instance abbrev pub nat_key : Key ℕ
nat_key = record { beq = ◌==◌; less = ltb; beq_iff = ==_iff }

module _ {ℓ κ} {K : Type ℓ} {V : Type κ} ⦃e : Key K⦄ where
  unfoldable pub find : K → List (K × V) → Option V
  find k [] = none
  find k ((j, v) ∷ m) = if e.beq j k then some v else find k m

  -- `m[k] = v`
  unfoldable pub assign : K → V → List (K × V) → List (K × V)
  assign k v [] = (k, v) ∷ []
  assign k v ((j, w) ∷ m) =
      if e.beq j k
      then (k, v) ∷ m
      else if e.less k j
      then (k, v) ∷ (j, w) ∷ m
      else (j, w) ∷ assign k v m

  pub find-assign_self : (k : K) (v : V) (m : List (K × V)) → find k (assign k v m) ≡ some v
  unfolding find assign
  find-assign_self k v [] = ground (arith, e.beq_iff k k)
  find-assign_self k v ((j, w) ∷ m) =
      ground (arith, e.beq_iff k k, e.beq_iff j k, find-assign_self k v m)

  -- `m.emplace(k, v)`: an entry that is there is kept.
  unfoldable pub emplace : K → V → List (K × V) → List (K × V)
  emplace k v [] = (k, v) ∷ []
  emplace k v ((j, w) ∷ m) =
      let rest = emplace k v m in
      if e.beq j k then (j, w) ∷ m else if e.less k j then (k, v) ∷ (j, w) ∷ m else (j, w) ∷ rest

  -- `m.begin()`
  unfoldable pub first_key : List (K × V) → Option K
  first_key [] = none
  first_key ((k, v) ∷ m) = some k

  -- `it++`, for an iterator at `k`.
  unfoldable pub next_key : K → List (K × V) → Option K
  unfolding first_key
  next_key k [] = none
  next_key k ((j, v) ∷ m) = let rest = next_key k m in if e.beq j k then first_key m else rest

  -- A change of `it->second`, for an iterator at `k`.
  unfoldable pub update : K → (V → V) → List (K × V) → List (K × V)
  update k f [] = []
  update k f ((j, v) ∷ m) =
      let rest = update k f m in if e.beq j k then (j, f v) ∷ m else (j, v) ∷ rest
