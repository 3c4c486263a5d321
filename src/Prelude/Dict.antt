-- ===== src/Prelude/Dict.antt =====
-- Go maps as association lists with distinct keys. `insert` overwrites, `delete` of a missing key
-- does nothing, and a lookup of a missing key is `none`.
use mathlib.Core.Path.{◌≡◌, refl}
use mathlib.Core.Logic.{inr, inl, ◌≢◌, ◌⊎◌}
use mathlib.Core.Bool.{Bool, true, false}
use mathlib.Core.List.{List, [], ◌∷◌}
use mathlib.Core.Option.{Option, none, some}
use native.Mathlib.Omega.{arith}
use prompto.Prelude.Tests.{Bool-cases, Comparable, ◌==◌, if◌then◌else◌}

abbrev pub Dict {ℓ κ} : Type ℓ → Type κ → Type (ℓ ⊔ κ)
Dict K V = List (K × V)

abbrev pub is_some {ℓ} : {A : Type ℓ} → Option A → Bool
is_some none = false
is_some (some a) = true

abbrev pub map_option {ℓ κ} : {A : Type ℓ} {B : Type κ} → (A → B) → Option A → Option B
map_option f none = none
map_option f (some a) = some (f a)

abbrev pub keep_if {ℓ} : {V : Type ℓ} → (V → Bool) → Option V → Option V
keep_if p none = none
keep_if p (some v) = if p v then some v else none

pub keep_if-some {ℓ} :
    {V : Type ℓ} (p : V → Bool) (v w : V) → keep_if p (some v) ≡ some w → (p v ≡ true) × (v ≡ w)
keep_if-some p v w h = ground arith

module _ {ℓ} {K : Type ℓ} ⦃e : Comparable K⦄ where
  pub eq_self : (k : K) → (k == k) ≡ true
  eq_self k = (e.equals_iff k k).1 refl

module _ {ℓ κ} {K : Type ℓ} {V : Type κ} ⦃e : Comparable K⦄ where
  unfoldable pub lookup : K → Dict K V → Option V
  lookup key [] = none
  lookup key ((name, value) ∷ entries) = if name == key then some value else lookup key entries

  unfoldable pub insert : K → V → Dict K V → Dict K V
  insert key new [] = (key, new) ∷ []
  insert key new ((name, value) ∷ entries) =
      if name == key then (key, new) ∷ entries else (name, value) ∷ insert key new entries

  unfoldable pub delete : K → Dict K V → Dict K V
  delete key [] = []
  delete key ((name, value) ∷ entries) =
      let rest = delete key entries in if name == key then rest else (name, value) ∷ rest

  -- No key stands twice.
  abbrev pub Distinct : Dict K V → Type κ
  Distinct [] = Unit
  Distinct ((j, v) ∷ m) = (lookup j m ≡ none) × Distinct m

  pub lookup-insert :
      (key other : K) (new : V) (m : Dict K V)
      → lookup other (insert key new m) ≡ (if key == other then some new else lookup other m)
  unfolding lookup insert
  lookup-insert key other new [] = refl
  lookup-insert key other new ((name, value) ∷ m) =
      let rest = lookup-insert key other new m in
      ground (arith, rest, e.equals_iff key other, e.equals_iff name key, e.equals_iff name other)

  pub lookup-delete :
      (k j : K) (m : Dict K V) → lookup j (delete k m) ≡ (if k == j then none else lookup j m)
  unfolding lookup delete
  lookup-delete k j [] = ground arith
  lookup-delete k j ((i, w) ∷ m) =
      ground (arith, e.equals_iff k j, e.equals_iff i k, e.equals_iff i j, lookup-delete k j m)

  -- Where an entry of a map that was written comes from.
  pub lookup-insert_cases :
      (k j : K) (v w : V) (m : Dict K V)
      → lookup j (insert k v m) ≡ some w
      → ((k ≡ j) × (w ≡ v)) ⊎ ((k ≢ j) × (lookup j m ≡ some w))
  lookup-insert_cases k j v w m h = ground (arith, e.equals_iff k j, lookup-insert k j v m)

  pub lookup-insert_self : (k : K) (v : V) (m : Dict K V) → lookup k (insert k v m) ≡ some v
  lookup-insert_self k v m = ground (arith, e.equals_iff k k, lookup-insert k k v m)

  pub lookup-insert_ne :
      (k j : K) (v : V) (m : Dict K V) → k ≢ j → lookup j (insert k v m) ≡ lookup j m
  lookup-insert_ne k j v m h = ground (arith, e.equals_iff k j, lookup-insert k j v m)

  pub lookup-delete_cases :
      (k j : K) (w : V) (m : Dict K V)
      → lookup j (delete k m) ≡ some w
      → (k ≢ j) × (lookup j m ≡ some w)
  lookup-delete_cases k j w m h = ground (arith, e.equals_iff k j, lookup-delete k j m)

  pub lookup-delete_self : (k : K) (m : Dict K V) → lookup k (delete k m) ≡ none
  lookup-delete_self k m = ground (arith, e.equals_iff k k, lookup-delete k k m)

  pub lookup-delete_ne : (k j : K) (m : Dict K V) → k ≢ j → lookup j (delete k m) ≡ lookup j m
  lookup-delete_ne k j m h = ground (arith, e.equals_iff k j, lookup-delete k j m)

  pub lookup-insert_twice :
      (k j : K) (v w : V) (m : Dict K V)
      → lookup j (insert k w (insert k v m)) ≡ (if k == j then some w else lookup j m)
  lookup-insert_twice k j v w m =
      ground (arith, lookup-insert k j w (insert k v m), lookup-insert k j v m)

  -- A loop over a map that deletes the entries that fail a test.
  unfoldable pub keep_values : (V → Bool) → Dict K V → Dict K V
  keep_values p [] = []
  keep_values p ((j, w) ∷ m) = let rest = keep_values p m in if p w then (j, w) ∷ rest else rest

  pub Distinct-insert : (k : K) (v : V) (m : Dict K V) → Distinct m → Distinct (insert k v m)
  unfolding insert lookup
  Distinct-insert k v [] d = (refl, tt)
  Distinct-insert k v ((j, w) ∷ m) d =
      ground (
        arith,
        e.equals_iff j k,
        e.equals_iff k j,
        lookup-insert k j v m,
        Distinct-insert k v m d.1,
      )

  pub Distinct-delete : (k : K) (m : Dict K V) → Distinct m → Distinct (delete k m)
  unfolding delete
  Distinct-delete k [] d = tt
  Distinct-delete k ((j, w) ∷ m) d = ground (arith, lookup-delete k j m, Distinct-delete k m d.1)

  pub lookup-keep_values :
      (p : V → Bool) (j : K) (m : Dict K V)
      → Distinct m
      → lookup j (keep_values p m) ≡ keep_if p (lookup j m)
  unfolding lookup keep_values
  lookup-keep_values p j [] d = refl
  lookup-keep_values p j ((i, w) ∷ m) d =
      ground (arith, e.equals_iff i j, lookup-keep_values p j m d.1, lookup-keep_values p i m d.1)

  pub Distinct-keep_values : (p : V → Bool) (m : Dict K V) → Distinct m → Distinct (keep_values p m)
  unfolding keep_values
  Distinct-keep_values p [] d = tt
  Distinct-keep_values p ((j, w) ∷ m) d =
      ground (arith, lookup-keep_values p j m d.1, Distinct-keep_values p m d.1)

  -- A write leaves every other key alone.
  pub lookup-insert_away :
      (k j : K) (v : V) (m : Dict K V) → (k ≡ j) ⊎ (lookup j (insert k v m) ≡ lookup j m)
  lookup-insert_away k j v m = elim (Bool-cases (k == j)) [
    | inl same ↦ inl ((e.equals_iff k j).0 same)
    | inr differs ↦ inr (ground (arith, lookup-insert k j v m))
  ]
