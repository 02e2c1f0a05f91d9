-- ===== src/Prelude/Map.antt =====
-- A Go map with text keys, as an association list: the order of iteration, which Go leaves open,
-- is not used by the code that is modelled.
use aceryx.Prelude.Tests.{◌==◌, eq_iff, text_eq_self, if◌then◌else◌}
use Prim.Native.String.{String}
use mathlib.Core.Path.{◌≡◌, refl}
use mathlib.Core.Option.{Option, none, some}
use mathlib.Core.List.{List, [], ◌∷◌}
use native.Mathlib.Omega.{arith}

abbrev pub Map {ℓ} : Type ℓ → Type ℓ
Map V = List (String × V)

module _ {ℓ} {V : Type ℓ} where
  -- value, ok := m[key]
  unfoldable pub lookup : String → Map V → Option V
  lookup key [] = none
  lookup key (entry ∷ rest) = if entry.0 == key then some entry.1 else lookup key rest

  -- m[key] = value
  unfoldable pub insert : String → V → Map V → Map V
  insert key value [] = (key, value) ∷ []
  insert key value (entry ∷ rest) =
      let kept = insert key value rest in
      if entry.0 == key then (entry.0, value) ∷ rest else entry ∷ kept

  -- delete(m, key)
  unfoldable pub delete : String → Map V → Map V
  delete key [] = []
  delete key (entry ∷ rest) =
      let kept = delete key rest in if entry.0 == key then kept else entry ∷ kept

  -- A write is read back at its key, and changes no other.
  pub lookup-insert :
      (key other : String) (value : V) (m : Map V)
      → lookup other (insert key value m) ≡ (if key == other then some value else lookup other m)
  unfolding lookup insert
  lookup-insert key other value [] = refl
  lookup-insert key other value (entry ∷ rest) = ground (
    arith,
    lookup-insert key other value rest,
    eq_iff entry.0 key,
    eq_iff entry.0 other,
    eq_iff key other,
  )

  pub lookup-delete :
      (key other : String) (m : Map V)
      → lookup other (delete key m) ≡ (if key == other then none else lookup other m)
  unfolding lookup delete
  lookup-delete key other [] = ground arith
  lookup-delete key other (entry ∷ rest) = ground (
    arith,
    lookup-delete key other rest,
    eq_iff entry.0 key,
    eq_iff entry.0 other,
    eq_iff key other,
  )

  pub lookup-insert_self : (k : String) (v : V) (m : Map V) → lookup k (insert k v m) ≡ some v
  lookup-insert_self k v m = rw (lookup-insert, text_eq_self)

  pub lookup-insert_ne :
      {k j : String} (v : V) (m : Map V) → ¬ (k ≡ j) → lookup j (insert k v m) ≡ lookup j m
  lookup-insert_ne {k} {j} v m ne = ground (arith, lookup-insert k j v m, eq_iff k j)

pub lookup-empty {ℓ} : {V : Type ℓ} (k : String) → lookup {V = V} k [] ≡ none
unfolding lookup
lookup-empty k = refl

-- m[k] where the values are slices: the nil slice for a key that is not there.
abbrev pub list_at {ℓ} : {A : Type ℓ} → Map (List A) → String → List A
list_at m k = elim (lookup k m) [ none ↦ [] | some xs ↦ xs ]
