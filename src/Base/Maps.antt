-- ===== src/Base/Maps.antt =====
-- A Go map with string keys as an association list. Go ranges over a map in no fixed order: a list
-- stands for one such order, and the theorems hold of every list.
use Prim.Native.String.{String}
use mathlib.Core.Path.{◌≡◌, refl}
use mathlib.Core.Option.{Option, none, some}
use mathlib.Core.List.{List, [], ◌∷◌}
use native.Mathlib.Omega.{arith}
use text.Mathlib.Text.{◌==◌}
use text.Mathlib.TextEquality.{eq_iff}
use gcisco_exporter.Base.Tests.{if◌then◌else◌}

abbrev pub Map {ℓ} : Type ℓ → Type ℓ
Map V = List (String × V)

module _ {ℓ} {V : Type ℓ} where
  -- `m[key]`
  unfoldable pub lookup : String → Map V → Option V
  lookup key [] = none
  lookup key ((first, held) ∷ rest) = if first == key then some held else lookup key rest

  -- `m[key] = value`
  unfoldable pub insert : String → V → Map V → Map V
  insert key value [] = (key, value) ∷ []
  insert key value ((first, held) ∷ rest) =
      if first == key then (key, value) ∷ rest else (first, held) ∷ insert key value rest

  -- a lookup after an assignment
  pub lookup-insert :
      (assigned wanted : String) (value : V) (entries : Map V)
      → lookup wanted (insert assigned value entries)
        ≡ (if assigned == wanted then some value else lookup wanted entries)
  unfolding insert lookup
  lookup-insert assigned wanted value [] = refl
  lookup-insert assigned wanted value ((first, held) ∷ rest) = ground (
    arith,
    lookup-insert assigned wanted value rest,
    eq_iff first wanted,
    eq_iff first assigned,
    eq_iff assigned wanted,
  )

  -- Each key stands once, as in every Go map.
  abbrev pub Distinct : Map V → Type ℓ
  Distinct [] = Unit
  Distinct ((k, v) ∷ m) = (lookup k m ≡ none) × Distinct m
