-- ===== src/Prelude/Assoc.antt =====
-- A map with numeric keys: `HashMap` and `DashMap` as association lists without repeated keys.
use newppp.Prelude.Tests.{◌==◌, if◌then◌else◌, Bool-cases}
use newppp.Prelude.Lists.{length}
use Prim.Native.Nat.{ℕ, suc, ◌≤◌}
use mathlib.Core.Path.{◌≡◌, refl}
use mathlib.Core.Bool.{Bool, true, false}
use mathlib.Core.List.{List, [], ◌∷◌}
use mathlib.Core.Option.{Option, none, some}
use mathlib.Core.Logic.{◌≢◌, inl, inr}
use native.Mathlib.Omega.{arith}

module _ {ℓ} {V : Type ℓ} where
  -- `m.get(&k)`.
  unfoldable pub lookup : ℕ → List (ℕ × V) → Option V
  lookup key [] = none
  lookup key ((here, found) ∷ rest) = if here == key then some found else lookup key rest

  -- `m.contains_key(&k)`.
  unfoldable pub has : ℕ → List (ℕ × V) → Bool
  has k [] = false
  has k ((j, v) ∷ m) = if j == k then true else has k m

  -- `m.insert(k, v)`: the old value is replaced.
  unfoldable pub insert : ℕ → V → List (ℕ × V) → List (ℕ × V)
  insert key new [] = (key, new) ∷ []
  insert key new ((here, old) ∷ rest) =
      if here == key then (key, new) ∷ rest else (here, old) ∷ insert key new rest

  -- `m.remove(&k)`.
  unfoldable pub remove : ℕ → List (ℕ × V) → List (ℕ × V)
  remove k [] = []
  remove k ((j, w) ∷ m) = if j == k then m else (j, w) ∷ remove k m

  -- `m.retain(p)`.
  unfoldable pub retain : (ℕ → V → Bool) → List (ℕ × V) → List (ℕ × V)
  retain p [] = []
  retain p ((j, w) ∷ m) = if p j w then (j, w) ∷ retain p m else retain p m

  -- No key stands twice.
  abbrev pub Fresh : ℕ → List (ℕ × V) → Type 0
  Fresh k [] = Unit {0}
  Fresh k ((j, w) ∷ m) = (j ≢ k) × Fresh k m

  abbrev pub Distinct : List (ℕ × V) → Type 0
  Distinct [] = Unit {0}
  Distinct ((j, w) ∷ m) = Fresh j m × Distinct m

  pub lookup-insert :
      (k j : ℕ) (v : V) (m : List (ℕ × V))
      → lookup j (insert k v m) ≡ (if k == j then some v else lookup j m)
  unfolding lookup insert
  lookup-insert key other new [] = refl
  lookup-insert key other new ((here, old) ∷ rest) =
      ground (arith, lookup-insert key other new rest)

  pub has-lookup : (k : ℕ) (m : List (ℕ × V)) → has k m ≡ true → (v : V) × (lookup k m ≡ some v)
  unfolding has lookup
  has-lookup k [] h = absurd (cc)
  has-lookup k ((j, w) ∷ m) h = elim (Bool-cases (j == k)) [
    | inl hit ↦ (w, rw hit)
    | inr miss ↦ rw miss (has-lookup k m (rw miss at h))
  ]

  pub lookup-none : (k : ℕ) (m : List (ℕ × V)) → has k m ≡ false → lookup k m ≡ none
  unfolding has lookup
  lookup-none k [] h = refl
  lookup-none k ((j, w) ∷ m) h = ground (arith, lookup-none k m)

  pub Fresh-has : (k : ℕ) (m : List (ℕ × V)) → has k m ≡ false → Fresh k m
  unfolding has
  Fresh-has k [] h = tt
  Fresh-has k ((j, w) ∷ m) h = ground (arith, Fresh-has k m)

  pub has-Fresh : (k : ℕ) (m : List (ℕ × V)) → Fresh k m → has k m ≡ false
  unfolding has
  has-Fresh k [] h = refl
  has-Fresh k ((j, w) ∷ m) h = ground (arith, has-Fresh k m)

  Fresh-insert : (k j : ℕ) (v : V) (m : List (ℕ × V)) → k ≢ j → Fresh j m → Fresh j (insert k v m)
  unfolding insert
  Fresh-insert k j v [] h f = (h, tt)
  Fresh-insert k j v ((i, w) ∷ m) h f = ground (arith, Fresh-insert k j v m)

  pub insert-Distinct : (k : ℕ) (v : V) (m : List (ℕ × V)) → Distinct m → Distinct (insert k v m)
  unfolding insert
  insert-Distinct k v [] d = (tt, tt)
  insert-Distinct k v ((i, w) ∷ m) d = ground (arith, Fresh-insert k i v m, insert-Distinct k v m)

  Fresh-remove : (k j : ℕ) (m : List (ℕ × V)) → Fresh j m → Fresh j (remove k m)
  unfolding remove
  Fresh-remove k j [] f = tt
  Fresh-remove k j ((i, w) ∷ m) f = ground (arith, Fresh-remove k j m)

  pub remove-Distinct : (k : ℕ) (m : List (ℕ × V)) → Distinct m → Distinct (remove k m)
  unfolding remove
  remove-Distinct k [] d = tt
  remove-Distinct k ((i, w) ∷ m) d = ground (arith, Fresh-remove k i m, remove-Distinct k m)

  pub has-remove :
      (k j : ℕ) (m : List (ℕ × V))
      → Distinct m
      → has j (remove k m) ≡ (if k == j then false else has j m)
  unfolding has remove
  has-remove k j [] d = ground arith
  has-remove k j ((i, w) ∷ m) d = ground (arith, has-remove k j m, has-Fresh i m)

  pub lookup-remove :
      (k j : ℕ) (m : List (ℕ × V))
      → Distinct m
      → lookup j (remove k m) ≡ (if k == j then none else lookup j m)
  unfolding lookup remove
  lookup-remove k j [] d = ground arith
  lookup-remove k j ((i, w) ∷ m) d =
      ground (arith, lookup-remove k j m, has-Fresh i m, lookup-none i m)

  pub has-insert :
      (k j : ℕ) (v : V) (m : List (ℕ × V))
      → has j (insert k v m) ≡ (if k == j then true else has j m)
  unfolding has insert
  has-insert k j v [] = refl
  has-insert k j v ((i, w) ∷ m) = ground (arith, has-insert k j v m)

  pub length-insert :
      (k : ℕ) (v : V) (m : List (ℕ × V))
      → length (insert k v m) ≡ (if has k m then length m else suc (length m))
  unfolding has insert
  length-insert k v [] = refl
  length-insert k v ((i, w) ∷ m) = ground (arith, length-insert k v m)

  pub length-remove :
      (k : ℕ) (m : List (ℕ × V))
      → length m ≡ (if has k m then suc (length (remove k m)) else length (remove k m))
  unfolding has remove
  length-remove k [] = refl
  length-remove k ((i, w) ∷ m) = ground (arith, length-remove k m)

  pub length-retain-le : (p : ℕ → V → Bool) (m : List (ℕ × V)) → length (retain p m) ≤ length m
  unfolding retain
  length-retain-le p [] = omega arith
  length-retain-le p ((i, w) ∷ m) = ground (arith, length-retain-le p m)
