-- ===== src/OrderedMap/Kept.antt =====
-- What the operations on a map with ids as keys keep.
use matter_hub.Prelude.{
  ℕ, ◌<◌, ◌≡◌, ◌≢◌, refl, sym, ap, ◌∙◌, List, [], ◌∷◌, true, false, none, some, some-injective, ltb,
  ◌==◌, Bool-cases, inl, inr, arith,
}
use matter_hub.OrderedMap.{nat_key, find, emplace, first_key, next_key, update}
use matter_hub.OrderedMap.Ids.{
  emplace_all, IsIncreasing, elem, insert, insert_all, keys, IsBelow, IsIncreasing-insert,
  IsBelow-trans,
}

module _ {ℓ} {V : Type ℓ} where
  -- Every entry of a map has a property.
  abbrev pub All {κ} : (ℕ → V → Type κ) → List (ℕ × V) → Type κ
  All P [] = Unit
  All P ((k, v) ∷ m) = P k v × All P m

  keys-emplace : (k : ℕ) (v : V) (m : List (ℕ × V)) → keys (emplace k v m) ≡ insert k (keys m)
  unfolding emplace insert
  keys-emplace k v [] = refl
  keys-emplace k v ((j, w) ∷ m) = elim (Bool-cases (j == k)) [
    | inl e ↦ rw e refl
    | inr e ↦ elim (Bool-cases (ltb k j)) [
      | inl l ↦ rw (e, l) refl
      | inr l ↦ rw (e, l) (ap (◌∷◌ j) (keys-emplace k v m))
    ]
  ]

  pub keys-emplace_all :
      (new : ℕ → V) (ids : List ℕ) (m : List (ℕ × V))
      → keys (emplace_all new ids m) ≡ insert_all ids (keys m)
  unfolding emplace_all insert_all
  keys-emplace_all new [] m = refl
  keys-emplace_all new (i ∷ ids) m =
      keys-emplace_all new ids (emplace i (new i) m)
      ∙ ap (insert_all ids) (keys-emplace i (new i) m)

  All-emplace {κ} :
      (P : ℕ → V → Type κ) (k : ℕ) (v : V) (m : List (ℕ × V))
      → P k v
      → All P m
      → All P (emplace k v m)
  unfolding emplace
  All-emplace P k v [] here h = (here, tt)
  All-emplace P k v ((j, w) ∷ m) here (first, h) = elim (Bool-cases (j == k)) [
    | inl e ↦ rw e (first, h)
    | inr e ↦ elim (Bool-cases (ltb k j)) [
      | inl l ↦ rw (e, l) (here, (first, h))
      | inr l ↦ rw (e, l) (first, All-emplace P k v m here h)
    ]
  ]

  pub All-emplace_all {κ} :
      (P : ℕ → V → Type κ) (new : ℕ → V) (ids : List ℕ) (m : List (ℕ × V))
      → ((i : ℕ) → P i (new i))
      → All P m
      → All P (emplace_all new ids m)
  unfolding emplace_all
  All-emplace_all P new [] m fresh h = h
  All-emplace_all P new (i ∷ ids) m fresh h =
      All-emplace_all P new ids (emplace i (new i) m) fresh (All-emplace P i (new i) m (fresh i) h)

  pub keys-update : (k : ℕ) (f : V → V) (m : List (ℕ × V)) → keys (update k f m) ≡ keys m
  unfolding update
  keys-update k f [] = refl
  keys-update k f ((j, v) ∷ m) = elim (Bool-cases (j == k)) [
    | inl e ↦ rw e refl
    | inr e ↦ rw e (ap (◌∷◌ j) (keys-update k f m))
  ]

  pub All-update {κ} :
      (P : ℕ → V → Type κ) (k : ℕ) (f : V → V) (m : List (ℕ × V))
      → ((j : ℕ) (v : V) → P j v → P j (f v))
      → All P m
      → All P (update k f m)
  unfolding update
  All-update P k f [] keep h = tt
  All-update P k f ((j, v) ∷ m) keep (first, h) = elim (Bool-cases (j == k)) [
    | inl e ↦ rw e (keep j v first, h)
    | inr e ↦ rw e (first, All-update P k f m keep h)
  ]

  pub All-find {κ} :
      (P : ℕ → V → Type κ) (k : ℕ) (v : V) (m : List (ℕ × V)) → All P m → find k m ≡ some v → P k v
  unfolding find
  All-find P k v [] h found = absurd (ground arith)
  All-find P k v ((j, w) ∷ m) (first, h) found = elim (Bool-cases (j == k)) [
    | inl e ↦
        let key : j ≡ k = ground arith in
        let value : w ≡ v = some-injective _ _ (rw e at found) in rw (← key, ← value) first
    | inr e ↦ All-find P k v m h (rw e at found)
  ]

  pub find-update :
      (k : ℕ) (f : V → V) (v : V) (m : List (ℕ × V))
      → find k m ≡ some v
      → find k (update k f m) ≡ some (f v)
  unfolding find update
  find-update k f v [] found = absurd (ground arith)
  find-update k f v ((j, w) ∷ m) found = elim (Bool-cases (j == k)) [
    | inl e ↦ rw e (rw (e, find) (ap (λ x. some (f x)) (some-injective _ _ (rw e at found))))
    | inr e ↦ rw e (rw (e, find) (find-update k f v m (rw e at found)))
  ]

  none-ne-some : (v : V) → none ≢ some v
  none-ne-some v h = cc

  find_below : (k : ℕ) (m : List (ℕ × V)) → IsBelow k (keys m) → find k m ≡ none
  unfolding find
  find_below k [] h = refl
  find_below k ((j, v) ∷ m) (lt, h) =
      let ne : (j == k) ≡ false = ground arith in rw ne (find_below k m h)

  -- An entry that goes before all others hides none.
  inserted_before :
      (k : ℕ) (v : V) (i j : ℕ) (u : V) (m : List (ℕ × V))
      → i < j
      → IsBelow j (keys m)
      → find k ((j, u) ∷ m) ≡ some v
      → (w : V) → find k ((i, w) ∷ (j, u) ∷ m) ≡ some v
  unfolding find
  inserted_before k v i j u m lt below found w = elim (Bool-cases (i == k)) [
    | inl e ↦
        let first : k < j = ground arith in
        let gone : find k ((j, u) ∷ m) ≡ none =
          find_below k ((j, u) ∷ m) (first, IsBelow-trans k j (keys m) first below) in
        absurd (none-ne-some v (sym gone ∙ found))
    | inr e ↦ rw e found
  ]

  find-emplace :
      (k : ℕ) (v : V) (i : ℕ) (w : V) (m : List (ℕ × V))
      → IsIncreasing (keys m)
      → find k m ≡ some v
      → find k (emplace i w m) ≡ some v
  unfolding find emplace
  find-emplace k v i w [] increasing found = absurd (ground arith)
  find-emplace k v i w ((j, u) ∷ m) (below, increasing) found = elim (Bool-cases (j == i)) [
    | inl e ↦ rw e found
    | inr e ↦ elim (Bool-cases (ltb i j)) [
      | inl l ↦ rw (e, l) (inserted_before k v i j u m (ground arith) below found w)
      | inr l ↦ elim (Bool-cases (j == k)) [
        | inl here ↦ rw (e, l) (rw (here, find) (rw here at found))
        | inr there ↦
            rw (e, l) (rw (there, find) (find-emplace k v i w m increasing (rw there at found)))
      ]
    ]
  ]

  pub find-emplace_all :
      (k : ℕ) (v : V) (new : ℕ → V) (ids : List ℕ) (m : List (ℕ × V))
      → IsIncreasing (keys m)
      → find k m ≡ some v
      → find k (emplace_all new ids m) ≡ some v
  unfolding emplace_all
  find-emplace_all k v new [] m increasing found = found
  find-emplace_all k v new (i ∷ ids) m increasing found =
      find-emplace_all k v new ids (emplace i (new i) m)
        (rw (keys-emplace i (new i) m) (IsIncreasing-insert i (keys m) increasing))
        (find-emplace k v i (new i) m increasing found)

  pub first_key-elem : (k : ℕ) (m : List (ℕ × V)) → first_key m ≡ some k → elem k (keys m) ≡ true
  unfolding first_key elem
  first_key-elem k [] h = absurd (ground arith)
  first_key-elem k ((j, v) ∷ m) h = let same : j ≡ k = some-injective _ _ h in ground arith

  pub next_key-elem : (i k : ℕ) (m : List (ℕ × V)) → next_key i m ≡ some k → elem k (keys m) ≡ true
  unfolding next_key elem
  next_key-elem i k [] h = absurd (ground arith)
  next_key-elem i k ((j, v) ∷ m) h = elim (Bool-cases (j == i)) [
    | inl e ↦ let later = first_key-elem k m (rw e at h) in ground arith
    | inr e ↦ let later = next_key-elem i k m (rw e at h) in ground arith
  ]
