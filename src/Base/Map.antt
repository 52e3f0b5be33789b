-- ===== src/Base/Map.antt =====
-- Go's maps with string keys, as association lists. The order of a list is the order in which a
-- `range` over the map meets its entries: Go leaves it open, and the theorems hold for every list.
use mathlib.Core.Path.{◌≡◌, refl}
use mathlib.Core.Bool.{Bool, false}
use mathlib.Core.Option.{Option, none, some}
use mathlib.Core.List.{List, [], ◌∷◌}
use Prim.Native.Nat.{◌+◌, ◌≤◌}
use Prim.Native.String.{String}
use native.Mathlib.Omega.{arith}
use text.Mathlib.Text.{◌==◌}
use text.Mathlib.TextEquality.{eq_iff}
use grok_go.Base.Lists.{length}
use grok_go.Base.Tests.{if◌then◌else◌}

abbrev pub Map {ℓ} : Type ℓ → Type ℓ
Map V = List (String × V)

module _ {ℓ} {V : Type ℓ} where
  unfoldable pub lookup : String → Map V → Option V
  lookup k [] = none
  lookup k ((j, v) ∷ m) = if j == k then some v else lookup k m

  -- m[k] = v
  unfoldable pub insert : String → V → Map V → Map V
  insert k v [] = (k, v) ∷ []
  insert k v ((j, w) ∷ m) = if j == k then (k, v) ∷ m else (j, w) ∷ insert k v m

  -- delete(m, k)
  unfoldable pub delete : String → Map V → Map V
  delete k [] = []
  delete k ((j, v) ∷ m) = if j == k then delete k m else (j, v) ∷ delete k m

  -- The loop that deletes the entries for which `drop` answers true.
  unfoldable pub delete_if : (String → V → Bool) → Map V → Map V
  delete_if drop [] = []
  delete_if drop ((j, v) ∷ m) = if drop j v then delete_if drop m else (j, v) ∷ delete_if drop m

  -- Reading a map after one of its keys was written.
  pub lookup-insert :
      (key other : String) (value : V) (entries : Map V)
      → lookup other (insert key value entries)
        ≡ (if key == other then some value else lookup other entries)
  unfolding lookup insert
  lookup-insert key other value [] = refl
  lookup-insert key other value ((i, w) ∷ entries) =
      let rest = lookup-insert key other value entries in
      ground (arith, rest, eq_iff i key, eq_iff i other, eq_iff key other)

  pub lookup-delete :
      (k j : String) (m : Map V) → lookup j (delete k m) ≡ (if k == j then none else lookup j m)
  unfolding lookup delete
  lookup-delete k j [] = ground arith
  lookup-delete k j ((i, w) ∷ m) =
      ground (arith, eq_iff k j, eq_iff i k, eq_iff i j, lookup-delete k j m)

  -- No key stands twice.
  abbrev pub Distinct : Map V → Type ℓ
  Distinct [] = Unit
  Distinct ((k, v) ∷ m) = (lookup k m ≡ none) × Distinct m

  abbrev pub refuse_if : (String → V → Bool) → String → Option V → Option V
  refuse_if drop k none = none
  refuse_if drop k (some v) = if drop k v then none else some v

  pub lookup-delete_if :
      (drop : String → V → Bool) (k : String) (m : Map V)
      → Distinct m
      → lookup k (delete_if drop m) ≡ refuse_if drop k (lookup k m)
  unfolding lookup delete_if
  lookup-delete_if drop k [] d = refl
  lookup-delete_if drop k ((j, v) ∷ m) d = ground (arith, eq_iff j k, lookup-delete_if drop k m d.1)

  pub insert-Distinct : (k : String) (v : V) (m : Map V) → Distinct m → Distinct (insert k v m)
  unfolding insert lookup
  insert-Distinct k v [] d = (refl, tt)
  insert-Distinct k v ((j, w) ∷ m) d =
      ground (arith, eq_iff j k, eq_iff k j, lookup-insert k j v m, insert-Distinct k v m d.1)

  pub delete-Distinct : (k : String) (m : Map V) → Distinct m → Distinct (delete k m)
  unfolding delete lookup
  delete-Distinct k [] d = tt
  delete-Distinct k ((j, w) ∷ m) d = ground (arith, lookup-delete k j m, delete-Distinct k m d.1)

  pub delete_if-Distinct :
      (drop : String → V → Bool) (m : Map V) → Distinct m → Distinct (delete_if drop m)
  unfolding delete_if lookup
  delete_if-Distinct drop [] d = tt
  delete_if-Distinct drop ((j, w) ∷ m) d =
      ground (arith, lookup-delete_if drop j m d.1, delete_if-Distinct drop m d.1)

  pub length-delete : (k : String) (m : Map V) → length (delete k m) ≤ length m
  unfolding delete
  length-delete k [] = omega arith
  length-delete k ((j, w) ∷ m) = ground (arith, length-delete k m)

  pub length-insert : (k : String) (v : V) (m : Map V) → length (insert k v m) ≤ length m + 1
  unfolding insert
  length-insert k v [] = omega arith
  length-insert k v ((j, w) ∷ m) = ground (arith, length-insert k v m)

  pub lookup-delete_if_keeps :
      (drop : String → V → Bool) (k : String) (v : V) (m : Map V)
      → lookup k (delete_if drop m) ≡ some v
      → drop k v ≡ false
  unfolding lookup delete_if
  lookup-delete_if_keeps drop k v [] h = cc
  lookup-delete_if_keeps drop k v ((j, w) ∷ m) h =
      ground (arith, eq_iff j k, lookup-delete_if_keeps drop k v m)

  pub length-delete_lt :
      (k : String) (v : V) (m : Map V) → lookup k m ≡ some v → length (delete k m) + 1 ≤ length m
  unfolding lookup delete
  length-delete_lt k v [] h = cc
  length-delete_lt k v ((j, w) ∷ m) h = ground (arith, length-delete k m, length-delete_lt k v m)
