-- ===== src/Python/Dict.antt =====
-- A `dict` with integer keys, as an association list in the order of insertion.
use client_py.Prelude.{ℕ, ◌≡◌, refl, Option, none, some, List, [], ◌∷◌, ◌==◌, if◌then◌else◌, arith}

abbrev pub Dict {ℓ} : Type ℓ → Type ℓ
Dict V = List (ℕ × V)

module _ {ℓ} {V : Type ℓ} where
  -- d.get(k)
  unfoldable pub lookup : ℕ → Dict V → Option V
  lookup k [] = none
  lookup k ((j, v) ∷ d) = if j == k then some v else lookup k d

  -- d[k] = v
  unfoldable pub insert : ℕ → V → Dict V → Dict V
  insert k v [] = (k, v) ∷ []
  insert k v ((j, w) ∷ d) = if j == k then (k, v) ∷ d else (j, w) ∷ insert k v d

  -- d.pop(k, None)
  unfoldable pub pop : ℕ → Dict V → Dict V
  pop k [] = []
  pop k ((j, w) ∷ d) = let rest = pop k d in if j == k then rest else (j, w) ∷ rest

  -- d.values()
  unfoldable pub values : Dict V → List V
  values [] = []
  values ((j, v) ∷ d) = v ∷ values d

  pub lookup-insert :
      (k j : ℕ) (v : V) (d : Dict V)
      → lookup j (insert k v d) ≡ (if k == j then some v else lookup j d)
  unfolding lookup insert
  lookup-insert k j v [] = refl
  lookup-insert k j v ((i, w) ∷ d) = ground (arith, lookup-insert k j v d)

  pub lookup-pop :
      (k j : ℕ) (d : Dict V) → lookup j (pop k d) ≡ (if k == j then none else lookup j d)
  unfolding lookup pop
  lookup-pop k j [] = ground arith
  lookup-pop k j ((i, w) ∷ d) = ground (arith, lookup-pop k j d)

  -- A dict with one entry.
  pub insert_nil : (k : ℕ) (v : V) → insert k v [] ≡ (k, v) ∷ []
  unfolding insert
  insert_nil k v = refl

  pub pop_nil : (k : ℕ) (d : Dict V) → d ≡ [] → pop k d ≡ []
  unfolding pop
  pop_nil k d h = rw h refl

  pub pop_only : (k : ℕ) (v : V) → pop k ((k, v) ∷ []) ≡ []
  unfolding pop
  pop_only k v = ground arith

  pub values_only : (k : ℕ) (v : V) → values ((k, v) ∷ []) ≡ v ∷ []
  unfolding values
  values_only k v = refl

  pub lookup_only : (k : ℕ) (v : V) → lookup k ((k, v) ∷ []) ≡ some v
  unfolding lookup
  lookup_only k v = ground arith
