-- ===== src/Text/Split.antt =====
-- The splitting loop ends with the fuel that it is given, and its tokens are the pieces between the
-- slashes.
use mathlib.Core.Option
use matter_hub.Prelude.{
  ℕ, zero, suc, ◌+◌, ◌<◌, ◌≡◌, refl, ap, ◌∙◌, ◌≢◌, inl, inr, List, [], ◌∷◌, ◌++◌, append_assoc,
  true, false, none, some, take, drop, length, ◌==◌, if◌then◌else◌, arith, Option-cases, Bool-cases,
  ==_iff,
}
use matter_hub.Text.{find, split_loop, split, slash}

-- The pieces by recursion on the text.
on_head : ℕ → List (List ℕ) → List (List ℕ)
on_head c [] = []
on_head c (t ∷ ts) = (c ∷ t) ∷ ts

pub pieces : List ℕ → List (List ℕ)
unfolding on_head
pieces [] = [] ∷ []
pieces (c ∷ s) = let rest = pieces s in if c == b'/' then [] ∷ rest else on_head c rest

-- The tokens put together again, with a slash between any two.
unfoldable pub join : List (List ℕ) → List ℕ
join [] = []
join (t ∷ []) = t
join (t ∷ u ∷ ts) = t ++ b'/' ∷ join (u ∷ ts)

abbrev pub HasNoSlash : List ℕ → Type 0
HasNoSlash [] = Unit
HasNoSlash (c ∷ s) = (c ≢ b'/') × HasNoSlash s

abbrev pub NoneHasSlash : List (List ℕ) → Type 0
NoneHasSlash [] = Unit
NoneHasSlash (t ∷ ts) = HasNoSlash t × NoneHasSlash ts

find-slash :
    (c : ℕ) (s : List ℕ)
    → find slash (c ∷ s) ≡ (if c == b'/' then some 0 else Option.map suc (find slash s))
unfolding find
find-slash c s = ground arith

pieces-none : (s : List ℕ) → find slash s ≡ none → pieces s ≡ s ∷ []
unfolding find pieces
pieces-none [] e = refl
pieces-none (c ∷ s) e = ground (arith, pieces-none s)

drop-suc : (p c : ℕ) (s : List ℕ) → drop (suc p + 1) (c ∷ s) ≡ drop (p + 1) s
drop-suc p c s = let e : suc p + 1 ≡ suc (p + 1) = omega arith in rw e

drop_one : (c : ℕ) (s : List ℕ) → drop (0 + 1) (c ∷ s) ≡ s
drop_one c s = refl

abbrev IsCut : List ℕ → ℕ → Type 0
IsCut s p = (pieces s ≡ take p s ∷ pieces (drop (p + 1) s)) × (length (drop (p + 1) s) < length s)

IsCut-here : (c : ℕ) (s : List ℕ) → (c == b'/') ≡ true → IsCut (c ∷ s) 0
unfolding pieces
IsCut-here c s h = (rw h, omega arith)

IsCut-later : (c : ℕ) (s : List ℕ) (p : ℕ) → (c == b'/') ≡ false → IsCut s p → IsCut (c ∷ s) (suc p)
unfolding pieces
IsCut-later c s p h (e, l) = rw drop-suc (rw (h, e), omega arith)

pieces-some : (s : List ℕ) (p : ℕ) → find slash s ≡ some p → IsCut s p
pieces-some [] p e = unfold find in cc
pieces-some (c ∷ s) p e = elim (Bool-cases (c == b'/')) [
  | inl h ↦ let e' : 0 ≡ p = ground (arith, find-slash c s) in rw (← e') (IsCut-here c s h)
  | inr h ↦ elim (Option-cases (find slash s)) [
    | inl missing ↦ absurd (ground (arith, find-slash c s))
    | inr (q, found) ↦
        let e' : suc q ≡ p = ground (arith, find-slash c s) in
        rw (← e') (IsCut-later c s q h (pieces-some s q found))
  ]
]

split_loop_lem :
    (fuel : ℕ) (s : List ℕ) (tokens : List (List ℕ))
    → length s < fuel
    → split_loop fuel slash s tokens ≡ some (tokens ++ pieces s)
unfolding split_loop
split_loop_lem zero s tokens h = elim h [ ]
split_loop_lem (suc fuel) s tokens h = elim (Option-cases (find slash s)) [
  | inl e ↦ rw (e, split_loop) (rw (pieces-none s e))
  | inr (p, e) ↦
      let (cut, shorter) = pieces-some s p e in
      rw (e, split_loop)
        (rw cut (
          split_loop_lem fuel (drop (p + 1) s) (tokens ++ take p s ∷ []) (omega arith)
          ∙ ap some (append_assoc tokens (take p s ∷ []) _)))
]

split-pieces : (s : List ℕ) → split s ≡ some (pieces s)
unfolding split
split-pieces s = split_loop_lem (suc (length s)) s [] (omega arith)

join-on_head : (c : ℕ) (ts : List (List ℕ)) → ts ≢ [] → join (on_head c ts) ≡ c ∷ join ts
unfolding join on_head
join-on_head c [] h = absurd (h refl)
join-on_head c (t ∷ []) h = refl
join-on_head c (t ∷ u ∷ ts) h = refl

pieces-ne-nil : (s : List ℕ) → pieces s ≢ []
unfolding pieces on_head
pieces-ne-nil [] e = cc
pieces-ne-nil (c ∷ s) e = ground (arith, pieces-ne-nil s)

join-nil : (ts : List (List ℕ)) → ts ≢ [] → join ([] ∷ ts) ≡ b'/' ∷ join ts
unfolding join
join-nil [] h = absurd (h refl)
join-nil (t ∷ ts) h = refl

join-pieces : (s : List ℕ) → join (pieces s) ≡ s
unfolding pieces
join-pieces [] = unfold join in refl
join-pieces (c ∷ s) = ground (
  arith,
  ==_iff c b'/',
  join-pieces s,
  join-on_head c (pieces s) (pieces-ne-nil s),
  join-nil (pieces s) (pieces-ne-nil s),
)

on_head-NoneHasSlash :
    (c : ℕ) (ts : List (List ℕ)) → c ≢ b'/' → NoneHasSlash ts → NoneHasSlash (on_head c ts)
unfolding on_head
on_head-NoneHasSlash c [] h k = tt
on_head-NoneHasSlash c (t ∷ ts) h (k, ks) = ((h, k), ks)

pieces-NoneHasSlash : (s : List ℕ) → NoneHasSlash (pieces s)
unfolding pieces
pieces-NoneHasSlash [] = (tt, tt)
pieces-NoneHasSlash (c ∷ s) = elim (Bool-cases (c == b'/')) [
  | inl h ↦ rw h (tt, pieces-NoneHasSlash s)
  | inr h ↦ rw h (on_head-NoneHasSlash c (pieces s) (λ e. ground arith) (pieces-NoneHasSlash s))
]

-- The splitting loop ends for every text. Its tokens, put together with a slash between any two,
-- are the text, there is at least one, and none of them has a slash.
pub split-join :
    (s : List ℕ)
    → (tokens : List (List ℕ)) × (split s ≡ some tokens)
      × (join tokens ≡ s)
      × (tokens ≢ [])
      × NoneHasSlash tokens
split-join s = (pieces s, split-pieces s, join-pieces s, pieces-ne-nil s, pieces-NoneHasSlash s)

pieces_plain : (t : List ℕ) → HasNoSlash t → pieces t ≡ t ∷ []
unfolding pieces on_head
pieces_plain [] h = refl
pieces_plain (c ∷ t) (n, h) = ground (arith, pieces_plain t h)

pieces_append : (t s : List ℕ) → HasNoSlash t → pieces (t ++ b'/' ∷ s) ≡ t ∷ pieces s
unfolding pieces on_head
pieces_append [] s h = refl
pieces_append (c ∷ t) s (n, h) = ground (arith, pieces_append t s h)

join-cons : (t u : List ℕ) (ts : List (List ℕ)) → join (t ∷ u ∷ ts) ≡ t ++ b'/' ∷ join (u ∷ ts)
unfolding join
join-cons t u ts = refl

join-one : (t : List ℕ) → join (t ∷ []) ≡ t
unfolding join
join-one t = refl

pieces-join :
    (t : List ℕ) (ts : List (List ℕ)) → NoneHasSlash (t ∷ ts) → pieces (join (t ∷ ts)) ≡ t ∷ ts
pieces-join t [] (h, _) = rw join-one (pieces_plain t h)
pieces-join t (u ∷ ts) (h, hs) =
    rw join-cons (pieces_append t (join (u ∷ ts)) h ∙ ap (◌∷◌ t) (pieces-join u ts hs))

-- Splitting gets back any tokens without a slash that were put together.
pub join-split :
    (t : List ℕ) (ts : List (List ℕ))
    → NoneHasSlash (t ∷ ts)
    → split (join (t ∷ ts)) ≡ some (t ∷ ts)
join-split t ts h = split-pieces _ ∙ ap some (pieces-join t ts h)
