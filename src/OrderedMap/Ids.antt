-- ===== src/OrderedMap/Ids.antt =====
-- Maps whose keys are ids: where an iterator stands in a map, and the map that `emplace` builds
-- from a list of ids.
use matter_hub.Prelude.{
  ℕ, ◌<◌, ◌≡◌, refl, ap, suc, length, ◌≢◌, List, [], ◌∷◌, ◌++◌, Bool, true, false, ◌||◌, none, some,
  ltb, ◌==◌, Bool-cases, inl, inr, if◌then◌else◌, arith,
}
use matter_hub.OrderedMap.{nat_key, find, emplace, first_key, next_key, update}

module _ {ℓ} {V : Type ℓ} where
  -- `for (id : ids) m.emplace(id, V(id))`
  unfoldable pub emplace_all : (ℕ → V) → List ℕ → List (ℕ × V) → List (ℕ × V)
  unfolding emplace
  emplace_all new [] m = m
  emplace_all new (i ∷ ids) m = emplace_all new ids (emplace i (new i) m)

  -- No key of the map is `k`.
  abbrev pub IsMissing : ℕ → List (ℕ × V) → Type 0
  IsMissing k [] = Unit
  IsMissing k ((j, v) ∷ m) = (j ≢ k) × IsMissing k m

  module _ (k : ℕ) (v : V) (rest : List (ℕ × V)) where
    pub find-middle :
        (done : List (ℕ × V)) → IsMissing k done → find k (done ++ (k, v) ∷ rest) ≡ some v
    unfolding find
    find-middle [] h = ground arith
    find-middle ((j, w) ∷ done) (ne, h) = ground (arith, find-middle done h)

    pub update-middle :
        (f : V → V) (done : List (ℕ × V))
        → IsMissing k done
        → update k f (done ++ (k, v) ∷ rest) ≡ done ++ (k, f v) ∷ rest
    unfolding update
    update-middle f [] h = ground arith
    update-middle f ((j, w) ∷ done) (ne, h) = ground (arith, update-middle f done h)

    pub next_key-middle :
        (done : List (ℕ × V))
        → IsMissing k done
        → next_key k (done ++ (k, v) ∷ rest) ≡ first_key rest
    unfolding next_key first_key
    next_key-middle [] h = ground arith
    next_key-middle ((j, w) ∷ done) (ne, h) = ground (arith, next_key-middle done h)

-- Ids in strictly increasing order.
abbrev pub IsBelow : ℕ → List ℕ → Type 0
IsBelow i [] = Unit
IsBelow i (j ∷ ids) = (i < j) × IsBelow i ids

abbrev pub IsIncreasing : List ℕ → Type 0
IsIncreasing [] = Unit
IsIncreasing (i ∷ ids) = IsBelow i ids × IsIncreasing ids

unfoldable pub elem : ℕ → List ℕ → Bool
elem i [] = false
elem i (j ∷ ids) = (j == i) || elem i ids

unfoldable pub insert : ℕ → List ℕ → List ℕ
insert i [] = i ∷ []
insert i (j ∷ ids) =
    let rest = insert i ids in if j == i then j ∷ ids else if ltb i j then i ∷ j ∷ ids else j ∷ rest

unfoldable pub insert_all : List ℕ → List ℕ → List ℕ
unfolding insert
insert_all [] js = js
insert_all (i ∷ ids) js = insert_all ids (insert i js)

pub IsBelow-trans : (i j : ℕ) (ids : List ℕ) → i < j → IsBelow j ids → IsBelow i ids
IsBelow-trans i j [] h k = tt
IsBelow-trans i j (l ∷ ids) h (m, k) = (omega arith, IsBelow-trans i j ids h k)

IsBelow-insert : (b i : ℕ) (ids : List ℕ) → b < i → IsBelow b ids → IsBelow b (insert i ids)
unfolding insert
IsBelow-insert b i [] h k = (h, tt)
IsBelow-insert b i (j ∷ ids) h (m, k) = elim (Bool-cases (j == i)) [
  | inl e ↦ rw e (m, k)
  | inr e ↦ elim (Bool-cases (ltb i j)) [
    | inl l ↦ rw (e, l) (h, (m, k))
    | inr l ↦ rw (e, l) (m, IsBelow-insert b i ids h k)
  ]
]

pub IsIncreasing-insert : (i : ℕ) (ids : List ℕ) → IsIncreasing ids → IsIncreasing (insert i ids)
unfolding insert
IsIncreasing-insert i [] h = (tt, tt)
IsIncreasing-insert i (j ∷ ids) (b, h) = elim (Bool-cases (j == i)) [
  | inl e ↦ rw e (b, h)
  | inr e ↦ elim (Bool-cases (ltb i j)) [
    | inl l ↦ rw (e, l) ((ground arith, IsBelow-trans i j ids (ground arith) b), (b, h))
    | inr l ↦ rw (e, l) (IsBelow-insert j i ids (ground arith) b, IsIncreasing-insert i ids h)
  ]
]

pub IsIncreasing-insert_all : (ids js : List ℕ) → IsIncreasing js → IsIncreasing (insert_all ids js)
unfolding insert_all
IsIncreasing-insert_all [] js h = h
IsIncreasing-insert_all (i ∷ ids) js h =
    IsIncreasing-insert_all ids (insert i js) (IsIncreasing-insert i js h)

elem-insert : (k i : ℕ) (ids : List ℕ) → elem k (insert i ids) ≡ ((i == k) || elem k ids)
unfolding elem insert
elem-insert k i [] = refl
elem-insert k i (j ∷ ids) = ground (arith, elem-insert k i ids)

pub elem-insert_all :
    (k : ℕ) (ids js : List ℕ) → elem k (insert_all ids js) ≡ (elem k ids || elem k js)
unfolding insert_all elem
elem-insert_all k [] js = refl
elem-insert_all k (i ∷ ids) js =
    ground (arith, elem-insert_all k ids (insert i js), elem-insert k i js)

-- The map that has one entry for each id.
unfoldable pub entries {ℓ} : {V : Type ℓ} → (ℕ → V) → List ℕ → List (ℕ × V)
entries f [] = []
entries f (i ∷ ids) = (i, f i) ∷ entries f ids

emplace-entries {ℓ} :
    {V : Type ℓ} (f : ℕ → V) (i : ℕ) (ids : List ℕ)
    → emplace i (f i) (entries f ids) ≡ entries f (insert i ids)
unfolding emplace entries insert
emplace-entries f i [] = refl
emplace-entries f i (j ∷ ids) = elim (Bool-cases (j == i)) [
  | inl e ↦ rw e refl
  | inr e ↦ elim (Bool-cases (ltb i j)) [
    | inl l ↦ rw (e, l) refl
    | inr l ↦ rw (e, l, emplace-entries f i ids) refl
  ]
]

pub emplace_all-entries {ℓ} :
    {V : Type ℓ} (f : ℕ → V) (ids js : List ℕ)
    → emplace_all f ids (entries f js) ≡ entries f (insert_all ids js)
unfolding emplace_all insert_all
emplace_all-entries f [] js = refl
emplace_all-entries f (i ∷ ids) js =
    rw (emplace-entries f i js) (emplace_all-entries f ids (insert i js))

pub find-entries {ℓ} :
    {V : Type ℓ} (f : ℕ → V) (k : ℕ) (ids : List ℕ)
    → find k (entries f ids) ≡ (if elem k ids then some (f k) else none)
unfolding find entries elem
find-entries f k [] = refl
find-entries f k (j ∷ ids) = elim (Bool-cases (j == k)) [
  | inl e ↦ let same : j ≡ k = ground arith in rw (e, same) refl
  | inr e ↦ rw e (find-entries f k ids)
]

pub length-entries {ℓ} :
    {V : Type ℓ} (f : ℕ → V) (ids : List ℕ) → length (entries f ids) ≡ length ids
unfolding entries
length-entries f [] = refl
length-entries f (i ∷ ids) = ap suc (length-entries f ids)

abbrev pub keys {ℓ} : {V : Type ℓ} → List (ℕ × V) → List ℕ
keys [] = []
keys ((k, v) ∷ m) = k ∷ keys m

pub keys-entries {ℓ} : {V : Type ℓ} (f : ℕ → V) (ids : List ℕ) → keys (entries f ids) ≡ ids
unfolding entries
keys-entries f [] = refl
keys-entries f (i ∷ ids) = ap (◌∷◌ i) (keys-entries f ids)

-- The empty list is the only one that has nothing to insert.
pub insert_all_nonempty : (ids js : List ℕ) → js ≢ [] → insert_all ids js ≢ []
unfolding insert_all insert
insert_all_nonempty [] js some_id h = some_id h
insert_all_nonempty (i ∷ ids) [] some_id h = insert_all_nonempty ids (i ∷ []) (λ e. cc) h
insert_all_nonempty (i ∷ ids) (j ∷ js) some_id h = elim (Bool-cases (j == i)) [
  | inl e ↦ insert_all_nonempty ids (j ∷ js) (λ e. cc) (rw e at h)
  | inr e ↦ elim (Bool-cases (ltb i j)) [
    | inl l ↦ insert_all_nonempty ids (i ∷ j ∷ js) (λ e. cc) (rw (e, l) at h)
    | inr l ↦ insert_all_nonempty ids (j ∷ insert i js) (λ e. cc) (rw (e, l) at h)
  ]
]

pub insert_all-nil : (ids : List ℕ) → ids ≢ [] → insert_all ids [] ≢ []
unfolding insert_all insert
insert_all-nil [] some_id h = some_id h
insert_all-nil (i ∷ ids) some_id h = insert_all_nonempty ids (i ∷ []) (λ e. cc) h

pub cons-nonempty {ℓ} : {A : Type ℓ} (x : A) (xs ys : List A) → ys ≡ x ∷ xs → ys ≢ []
cons-nonempty x xs ys e nil = cc

pub elem-nonempty : (k : ℕ) (ids : List ℕ) → elem k ids ≡ true → ids ≢ []
unfolding elem
elem-nonempty k [] h nil = ground arith
elem-nonempty k (i ∷ ids) h nil = cc
