-- ===== src/Base/Assoc.antt =====
-- A map with text keys as an association list: Go's and JavaScript's maps, whose iteration
-- order the modelled code never reads.
use Prim.Native.String.{String}
use mathlib.Core.Path.{◌≡◌, refl}
use mathlib.Core.Logic.{◌≢◌}
use mathlib.Core.Option.{Option, none, some}
use mathlib.Core.List.{List, [], ◌∷◌}
use native.Mathlib.Omega.{arith}
use text.Mathlib.Text.{◌==◌}
use text.Mathlib.TextEquality.{eq_iff}
use qlab.Base.Tests.{if◌then◌else◌}

abbrev pub Map {ℓ} : Type ℓ → Type ℓ
Map V = List (String × V)

module _ {ℓ} {V : Type ℓ} where
  -- An absent key has no value.
  unfoldable pub lookup : String → Map V → Option V
  lookup key [] = none
  lookup key (entry ∷ rest) = if entry.0 == key then some entry.1 else lookup key rest

  -- A present key keeps its place and gets the new value; an absent one is put last.
  unfoldable pub insert : String → V → Map V → Map V
  insert key new [] = (key, new) ∷ []
  insert key new (entry ∷ rest) =
      if entry.0 == key then (entry.0, new) ∷ rest else entry ∷ insert key new rest

  -- Reading any key after one write.
  pub lookup-insert :
      (key other : String) (new : V) (table : Map V)
      → lookup other (insert key new table)
        ≡ (if key == other then some new else lookup other table)
  unfolding lookup insert
  lookup-insert key other new [] = refl
  lookup-insert key other new (entry ∷ rest) = ground (
    arith,
    lookup-insert key other new rest,
    eq_iff entry.0 other,
    eq_iff entry.0 key,
    eq_iff key other,
  )

  pub lookup-insert_self :
      (key : String) (new : V) (table : Map V) → lookup key (insert key new table) ≡ some new
  lookup-insert_self key new table = ground (arith, lookup-insert key key new table, eq_iff key key)

  pub lookup-insert_ne :
      (key other : String) (new : V) (table : Map V)
      → key ≢ other
      → lookup other (insert key new table) ≡ lookup other table
  lookup-insert_ne key other new table h =
      ground (arith, lookup-insert key other new table, eq_iff key other)
