-- ===== src/Text/Tests.antt =====
-- The theorems about texts at concrete inputs.
use matter_hub.Prelude.{ℕ, ◌≡◌, refl, ◌≢◌, List, [], ◌∷◌, codes, some, arith}
use matter_hub.Outcome.{ret}
use matter_hub.Text.{split, stoull}
use matter_hub.Text.Split.{join, NoneHasSlash, split-join}

split-join_example :
    (tokens : List (List ℕ)) × (split (codes "1/6//0") ≡ some tokens)
    × (join tokens ≡ codes "1/6//0")
    × (tokens ≢ [])
    × NoneHasSlash tokens
split-join_example = split-join (codes "1/6//0")

abbrev one_six : NoneHasSlash (codes "1" ∷ codes "6" ∷ [] ∷ [])
one_six = ((λ e. omega arith, tt), ((λ e. omega arith, tt), (tt, tt)))

-- Runs of the definitions.
stoull_digits : stoull (codes " 42x") ≡ ret 42
unfolding stoull
stoull_digits = refl

split_topic : split (codes "a//b") ≡ some (codes "a" ∷ [] ∷ codes "b" ∷ [])
unfolding split
split_topic = refl
