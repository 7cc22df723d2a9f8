-- ===== src/Common/Map.antt =====
-- Go maps with string keys, as association lists. A map literal and `make` are `[]`; writing a key
-- replaces its entry or adds one, so a map that the program builds holds each key once (`Distinct`).
use mathlib.Core.Path.{◌≡◌, refl}
use mathlib.Core.Bool.{true, false}
use mathlib.Core.Option.{Option, none, some}
use mathlib.Core.List.{List, [], ◌∷◌}
use native.Mathlib.Omega.{arith}
use hraftd.Common.Tests.{if◌then◌else◌}
use hraftd.Common.Text.{Text, ◌==◌, eq_iff}

abbrev pub Map {ℓ} : Type ℓ → Type ℓ
Map V = List (Text × V)

module _ {ℓ} {V : Type ℓ} where
  -- delete(m, key)
  unfoldable pub delete : Text → Map V → Map V
  delete key [] = []
  delete key ((at, w) ∷ rest) =
      let others = delete key rest in if at == key then others else (at, w) ∷ others

  -- m[key] = v
  unfoldable pub insert : Text → V → Map V → Map V
  insert key v [] = (key, v) ∷ []
  insert key v ((at, w) ∷ rest) = if at == key then (at, v) ∷ rest else (at, w) ∷ insert key v rest

  -- v, ok := m[key]
  unfoldable pub lookup : Text → Map V → Option V
  lookup key [] = none
  lookup key ((at, w) ∷ rest) = if at == key then some w else lookup key rest

  -- Each key stands in one entry.
  abbrev pub Distinct : Map V → Type ℓ
  Distinct [] = Unit
  Distinct ((k, v) ∷ m) = (lookup k m ≡ none) × Distinct m

  module _ (k j : Text) (w : V) (m : Map V) where
    pub lookup_here : (j == k) ≡ true → lookup k ((j, w) ∷ m) ≡ some w
    unfolding lookup
    lookup_here h = rw (h, lookup)

    pub lookup_there : (j == k) ≡ false → lookup k ((j, w) ∷ m) ≡ lookup k m
    unfolding lookup
    lookup_there h = ground arith

    pub insert_here : (v : V) → (j == k) ≡ true → insert k v ((j, w) ∷ m) ≡ (j, v) ∷ m
    unfolding insert
    insert_here v h = ground arith

    pub insert_there : (v : V) → (j == k) ≡ false → insert k v ((j, w) ∷ m) ≡ (j, w) ∷ insert k v m
    unfolding insert
    insert_there v h = ground arith

  pub lookup-delete :
      (key other : Text) (entries : Map V)
      → lookup other (delete key entries) ≡ (if key == other then none else lookup other entries)
  unfolding lookup delete
  lookup-delete key other [] = ground arith
  lookup-delete key other ((at, w) ∷ rest) =
      ground (arith, lookup-delete key other rest, eq_iff at other, eq_iff at key, eq_iff key other)

  pub lookup-insert :
      (key other : Text) (new : V) (entries : Map V)
      → lookup other (insert key new entries)
        ≡ (if key == other then some new else lookup other entries)
  unfolding lookup insert
  lookup-insert key other new [] = refl
  lookup-insert key other new ((at, w) ∷ rest) =
      ground
        (arith, lookup-insert key other new rest, eq_iff at other, eq_iff at key, eq_iff key other)

  pub insert-Distinct : (k : Text) (v : V) (m : Map V) → Distinct m → Distinct (insert k v m)
  unfolding insert lookup
  insert-Distinct k v [] h = (refl, tt)
  insert-Distinct k v ((i, w) ∷ m) (h, hs) =
      ground (arith, eq_iff k i, eq_iff i k, lookup-insert k i v m, insert-Distinct k v m hs)

  pub delete-Distinct : (k : Text) (m : Map V) → Distinct m → Distinct (delete k m)
  unfolding delete lookup
  delete-Distinct k [] h = tt
  delete-Distinct k ((i, w) ∷ m) (h, hs) =
      ground (arith, eq_iff k i, eq_iff i k, lookup-delete k i m, delete-Distinct k m hs)

pub lookup-nil {ℓ} : {V : Type ℓ} (k : Text) → lookup {V = V} k [] ≡ none
unfolding lookup
lookup-nil k = refl

pub ruleset map_laws = (lookup-nil, lookup-insert, lookup-delete)
