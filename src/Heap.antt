-- ===== src/Heap.antt =====
-- Objects behind pointers: `Platform::New` puts an object at an address, `Platform::Delete` takes
-- it away.
use matter_hub.Prelude.{
  ℕ, ◌≡◌, ◌≢◌, refl, List, [], ◌∷◌, Option, none, some, ◌==◌, Bool-cases, inl, inr, if◌then◌else◌,
  arith,
}

module _ {D : Type 0} where
  unfoldable pub object_at : ℕ → List (ℕ × D) → Option D
  object_at address [] = none
  object_at address ((a, d) ∷ rest) = if a == address then some d else object_at address rest

  -- Platform::Delete
  unfoldable pub delete : ℕ → List (ℕ × D) → List (ℕ × D)
  delete address [] = []
  delete address ((a, d) ∷ rest) =
      let rest' = delete address rest in if a == address then rest' else (a, d) ∷ rest'

  pub object_at-delete : (a : ℕ) (os : List (ℕ × D)) → object_at a (delete a os) ≡ none
  unfolding object_at delete
  object_at-delete a [] = refl
  object_at-delete a ((b, d) ∷ os) = elim (Bool-cases (b == a)) [
    | inl h ↦ rw h (object_at-delete a os)
    | inr h ↦ rw h (rw (h, object_at) (object_at-delete a os))
  ]

  pub object_at-cons : (a : ℕ) (d : D) (os : List (ℕ × D)) → object_at a ((a, d) ∷ os) ≡ some d
  unfolding object_at
  object_at-cons a d os = ground arith

  pub delete_missing : (a : ℕ) (os : List (ℕ × D)) → object_at a os ≡ none → delete a os ≡ os
  unfolding object_at delete
  delete_missing a [] h = refl
  delete_missing a ((b, d) ∷ os) h = ground (arith, delete_missing a os)

  pub delete-cons :
      (a : ℕ) (d : D) (os : List (ℕ × D)) → object_at a os ≡ none → delete a ((a, d) ∷ os) ≡ os
  unfolding delete
  delete-cons a d os h = ground (arith, delete_missing a os h)

  pub object_at-delete_other :
      (a b : ℕ) (os : List (ℕ × D)) → a ≢ b → object_at b (delete a os) ≡ object_at b os
  unfolding object_at delete
  object_at-delete_other a b [] apart = refl
  object_at-delete_other a b ((c, d) ∷ os) apart =
      ground (arith, object_at-delete_other a b os apart)
