-- ===== src/Base/Maps.antt =====
-- Go maps as association lists. A write replaces the entry in place, so a map that is built from
-- the empty one holds each key once; a range over a map visits the entries in list order.
use mathlib.Core.Path.{◌≡◌, refl}
use mathlib.Core.Logic.{inl, inr}
use mathlib.Core.Bool.{Bool, true, false}
use mathlib.Core.List.{List, [], ◌∷◌}
use mathlib.Core.Option.{Option, none, some}
use native.Mathlib.Omega.{arith}
use xrestream.Base.Tests.{if◌then◌else◌, Eq, ◌==◌, ==_iff, ==_self, Bool-cases}
use xrestream.Base.Lists.{In}

abbrev pub Map {ℓ} : Type 0 → Type ℓ → Type ℓ
Map K V = List (K × V)

module _ {ℓ} {K : Type 0} {V : Type ℓ} ⦃e : Eq K⦄ where
  -- v, ok := m[k]
  unfoldable pub lookup : K → Map K V → Option V
  lookup k [] = none
  lookup k ((k', found) ∷ rest) = if k' == k then some found else lookup k rest

  -- delete(m, k)
  unfoldable pub delete : K → Map K V → Map K V
  delete k [] = []
  delete k ((k', old) ∷ rest) = if k' == k then delete k rest else (k', old) ∷ delete k rest

  -- m[k] = v
  unfoldable pub insert : K → V → Map K V → Map K V
  insert k new [] = (k, new) ∷ []
  insert k new ((k', old) ∷ rest) =
      if k' == k then (k, new) ∷ rest else (k', old) ∷ insert k new rest

  -- m[k], with the zero value `d` of the type for a missing key
  abbrev pub lookup_or : K → V → Map K V → V
  lookup_or k d m = elim (lookup k m) [ none ↦ d | some v ↦ v ]

  abbrev pub has_key : K → Map K V → Bool
  has_key k m = elim (lookup k m) [ none ↦ false | some v ↦ true ]

  pub lookup-insert :
      (written key : K) (new : V) (m : Map K V)
      → lookup key (insert written new m) ≡ (if written == key then some new else lookup key m)
  unfolding lookup insert
  lookup-insert written key new [] = refl
  lookup-insert written key new ((k, old) ∷ m) =
      ground
        (arith, lookup-insert written key new m, ==_iff written key, ==_iff k written, ==_iff k key)

  pub lookup-delete :
      (k j : K) (m : Map K V) → lookup j (delete k m) ≡ (if k == j then none else lookup j m)
  unfolding lookup delete
  lookup-delete k j [] = ground arith
  lookup-delete k j ((i, w) ∷ m) =
      ground (arith, ==_iff k j, ==_iff i k, ==_iff i j, lookup-delete k j m)

  pub lookup-cons :
      (k j : K) (v : V) (m : Map K V)
      → lookup k ((j, v) ∷ m) ≡ (if j == k then some v else lookup k m)
  unfolding lookup
  lookup-cons k j v m = refl

  pub lookup-insert_self : (k : K) (v : V) (m : Map K V) → lookup k (insert k v m) ≡ some v
  lookup-insert_self k v m = rw (lookup-insert, ==_self k)

  -- No key stands twice.
  abbrev pub Distinct : Map K V → Type ℓ
  Distinct [] = Unit
  Distinct ((k, v) ∷ m) = (lookup k m ≡ none) × Distinct m

  pub insert-Distinct : (k : K) (v : V) (m : Map K V) → Distinct m → Distinct (insert k v m)
  unfolding lookup insert
  insert-Distinct k v [] d = (refl, tt)
  insert-Distinct k v ((j, w) ∷ m) (f, d) =
      ground (arith, ==_iff j k, ==_iff k j, insert-Distinct k v m d, lookup-insert k j v m)

  pub delete-Distinct : (k : K) (m : Map K V) → Distinct m → Distinct (delete k m)
  unfolding lookup delete
  delete-Distinct k [] d = tt
  delete-Distinct k ((j, w) ∷ m) (f, d) =
      ground (arith, ==_iff j k, delete-Distinct k m d, lookup-delete k j m, ==_iff k j)

module _ {K V : Type 0} ⦃e : Eq K⦄ where
  -- In a map with distinct keys the entries are what `lookup` finds.
  pub In-of_lookup : (k : K) (v : V) (m : Map K V) → lookup k m ≡ some v → In (k, v) m
  unfolding lookup
  In-of_lookup k v [] h = cc
  In-of_lookup k v ((j, w) ∷ m) h = elim (Bool-cases (j == k)) [
    | inl same ↦ inl (ground (arith, ==_iff j k))
    | inr other ↦ inr (In-of_lookup k v m (ground arith))
  ]

  pub lookup_of_In : (k : K) (v : V) (m : Map K V) → Distinct m → In (k, v) m → lookup k m ≡ some v
  unfolding lookup
  lookup_of_In k v [] d h = elim h [ ]
  lookup_of_In k v ((j, w) ∷ m) (f, d) (inl h) = ground (arith, ==_iff j k)
  lookup_of_In k v ((j, w) ∷ m) (f, d) (inr h) = ground (arith, ==_iff j k, lookup_of_In k v m d h)
