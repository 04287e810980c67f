-- ===== src/Common/Map.antt =====
-- `HashMap` and `BTreeMap` as association lists. The code never reads the order of a map's entries,
-- so the order is not part of any statement.
use Prim.Native.Nat.{◌+◌, ◌≤◌}
use mathlib.Core.Path.{◌≡◌, refl, sym, ◌∙◌}
use mathlib.Core.Bool.{Bool, true, false}
use mathlib.Core.Option.{Option, none, some}
use mathlib.Core.List.{List, [], ◌∷◌}
use native.Mathlib.Omega.{arith}
use mathlib.Core.Logic.{◌⊎◌, inl, inr}
use ash.Common.Tests.{if◌then◌else◌, Bool-cases}
use ash.Common.Lists.{length}
use ash.Common.Eq.{Eq}

abbrev pub Map {ℓ κ} : Type ℓ → Type κ → Type (ℓ ⊔ κ)
Map K V = List (K × V)

abbrev pub is_some {ℓ} : {A : Type ℓ} → Option A → Bool
is_some none = false
is_some (some a) = true

module _ {ℓ} {K : Type ℓ} ⦃e : Eq K⦄ where
  pub key_cases : (k j : K) → (k ≡ j) ⊎ (¬ (k ≡ j))
  key_cases k j = elim (Bool-cases (e.test k j)) [
    | inl h ↦ inl ((e.agrees k j).0 h)
    | inr h ↦ inr (λ p. ground (arith, (e.agrees k j).1 p))
  ]

module _ {ℓ κ} {K : Type ℓ} {V : Type κ} ⦃e : Eq K⦄ where
  unfoldable pub get : Map K V → K → Option V
  get [] k = none
  get ((j, v) ∷ m) k = if e.test j k then some v else get m k

  -- `insert`: an entry under the key is replaced.
  unfoldable pub insert : Map K V → K → V → Map K V
  insert [] k v = (k, v) ∷ []
  insert ((j, w) ∷ m) k v = if e.test j k then (k, v) ∷ m else (j, w) ∷ insert m k v

  unfoldable pub remove : Map K V → K → Map K V
  remove [] k = []
  remove ((j, w) ∷ m) k = let rest = remove m k in if e.test j k then rest else (j, w) ∷ rest

  -- `retain` by a test on values.
  unfoldable pub retain : (V → Bool) → Map K V → Map K V
  retain p [] = []
  retain p ((j, w) ∷ m) = let rest = retain p m in if p w then (j, w) ∷ rest else rest

  pub get-insert :
      (m : Map K V) (k j : K) (v : V)
      → get (insert m k v) j ≡ (if e.test k j then some v else get m j)
  unfolding get insert
  get-insert [] k j v = refl
  get-insert ((i, w) ∷ m) k j v =
      ground (arith, e.agrees i k, e.agrees i j, e.agrees k j, get-insert m k j v)

  pub get-remove :
      (m : Map K V) (k j : K) → get (remove m k) j ≡ (if e.test k j then none else get m j)
  unfolding get remove
  get-remove [] k j = ground arith
  get-remove ((i, w) ∷ m) k j =
      ground (arith, e.agrees i k, e.agrees i j, e.agrees k j, get-remove m k j)

  pub length-insert_new :
      (m : Map K V) (k : K) (v : V) → get m k ≡ none → length (insert m k v) ≡ length m + 1
  unfolding get insert
  length-insert_new [] k v h = omega arith
  length-insert_new ((i, w) ∷ m) k v h = ground (arith, length-insert_new m k v)

  pub length-remove-le : (m : Map K V) (k : K) → length (remove m k) ≤ length m
  unfolding remove
  length-remove-le [] k = omega arith
  length-remove-le ((i, w) ∷ m) k = ground (arith, length-remove-le m k)

  pub length-retain-le : (p : V → Bool) (m : Map K V) → length (retain p m) ≤ length m
  unfolding retain
  length-retain-le p [] = omega arith
  length-retain-le p ((i, w) ∷ m) = ground (arith, length-retain-le p m)

  -- What `retain` keeps, and that it adds nothing.
  pub get-retain_kept :
      (p : V → Bool) (m : Map K V) (k : K) (v : V)
      → get m k ≡ some v
      → p v ≡ true
      → get (retain p m) k ≡ some v
  unfolding get retain
  get-retain_kept p [] k v h q = h
  get-retain_kept p ((i, w) ∷ m) k v h q = ground (arith, get-retain_kept p m k v)

  pub get-retain_absent :
      (p : V → Bool) (m : Map K V) (k : K) → get m k ≡ none → get (retain p m) k ≡ none
  unfolding get retain
  get-retain_absent p [] k h = h
  get-retain_absent p ((i, w) ∷ m) k h = ground (arith, get-retain_absent p m k)

  pub get-retain_test :
      (p : V → Bool) (m : Map K V) (k : K) (v : V) → get (retain p m) k ≡ some v → p v ≡ true
  unfolding get retain
  get-retain_test p [] k v h = cc
  get-retain_test p ((i, w) ∷ m) k v h = ground (arith, get-retain_test p m k v)

  pub get-insert_same : (m : Map K V) (k : K) (v : V) → get (insert m k v) k ≡ some v
  get-insert_same m k v = ground (arith, get-insert m k k v, (e.agrees k k).1 refl)

  pub get-insert_other :
      (m : Map K V) (k j : K) (v : V) → ¬ (k ≡ j) → get (insert m k v) j ≡ get m j
  get-insert_other m k j v h = elim (Bool-cases (e.test k j)) [
    | inl t ↦ absurd (h ((e.agrees k j).0 t))
    | inr t ↦ ground (arith, get-insert m k j v)
  ]

  pub get-remove_same : (m : Map K V) (k : K) → get (remove m k) k ≡ none
  get-remove_same m k = ground (arith, get-remove m k k, (e.agrees k k).1 refl)

  pub get-remove_other : (m : Map K V) (k j : K) → ¬ (k ≡ j) → get (remove m k) j ≡ get m j
  get-remove_other m k j h = elim (Bool-cases (e.test k j)) [
    | inl t ↦ absurd (h ((e.agrees k j).0 t))
    | inr t ↦ ground (arith, get-remove m k j)
  ]

  pub length-insert_known :
      (m : Map K V) (k : K) (v w : V) → get m k ≡ some w → length (insert m k v) ≡ length m
  unfolding get insert
  length-insert_known [] k v w h = cc
  length-insert_known ((i, u) ∷ m) k v w h = ground (arith, length-insert_known m k v w)

  -- One entry for each key.
  abbrev pub IsUnique : Map K V → Type κ
  IsUnique [] = Unit
  IsUnique ((k, v) ∷ m) = (get m k ≡ none) × IsUnique m

  pub insert-IsUnique : (m : Map K V) (k : K) (v : V) → IsUnique m → IsUnique (insert m k v)
  unfolding insert get
  insert-IsUnique [] k v u = (refl, tt)
  insert-IsUnique ((i, w) ∷ m) k v (new, u) = elim (key_cases i k) [
    | inl same ↦ rw ((e.agrees i k).1 same) (rw same at new, u)
    | inr other ↦ elim (Bool-cases (e.test i k)) [
      | inl t ↦ absurd (other ((e.agrees i k).0 t))
      | inr t ↦ rw t (get-insert_other m k i v (λ p. other (sym p)) ∙ new, insert-IsUnique m k v u)
    ]
  ]

  pub remove-IsUnique : (m : Map K V) (k : K) → IsUnique m → IsUnique (remove m k)
  unfolding remove get
  remove-IsUnique [] k u = tt
  remove-IsUnique ((i, w) ∷ m) k (new, u) = elim (Bool-cases (e.test i k)) [
    | inl t ↦ rw t (remove-IsUnique m k u)
    | inr t ↦
        let gone : get (remove m k) i ≡ none = ground (arith, get-remove m k i) in
        rw t (gone, remove-IsUnique m k u)
  ]
