-- ===== src/Prelude/Maps.antt =====
-- Go's maps with text keys, as association lists. A map literal lists its entries once each; an
-- assignment replaces the entry of its key or adds one.
use mathlib.Core.Path.{◌≡◌, refl}
use mathlib.Core.Option.{Option, none, some}
use mathlib.Core.List.{List, [], ◌∷◌}
use Prim.Native.String.{String}
use native.Mathlib.Omega.{arith}
use text.Mathlib.Text.{◌==◌}
use text.Mathlib.TextEquality.{eq_iff}
use work_script.Prelude.Tests.{if◌then◌else◌}

abbrev pub Dict {ℓ} : Type ℓ → Type ℓ
Dict V = List (String × V)

module _ {ℓ} {V : Type ℓ} where
  -- m[k], with the test for presence
  unfoldable pub lookup : String → Dict V → Option V
  lookup key [] = none
  lookup key ((other, value) ∷ rest) = if key == other then some value else lookup key rest

  -- m[k] = v
  unfoldable pub insert : String → V → Dict V → Dict V
  insert key value [] = (key, value) ∷ []
  insert key value ((other, old) ∷ rest) =
      if key == other then (other, value) ∷ rest else (other, old) ∷ insert key value rest

  -- for k, v := range overrides { m[k] = v }
  unfoldable pub merge : Dict V → Dict V → Dict V
  unfolding insert
  merge [] m = m
  merge ((k, v) ∷ overrides) m = merge overrides (insert k v m)

  abbrev pub keys : Dict V → List String
  keys [] = []
  keys ((k, v) ∷ m) = k ∷ keys m

  -- What is found after an assignment.
  pub lookup-insert :
      (set asked : String) (value : V) (m : Dict V)
      → lookup asked (insert set value m) ≡ (if asked == set then some value else lookup asked m)
  unfolding lookup insert
  lookup-insert set asked value [] = refl
  lookup-insert set asked value ((other, old) ∷ rest) = ground (
    lookup-insert set asked value rest,
    eq_iff set other,
    eq_iff asked other,
    eq_iff asked set,
    arith,
  )

  -- A Go map has each key once.
  abbrev pub Distinct : Dict V → Type ℓ
  Distinct [] = Unit
  Distinct ((k, v) ∷ m) = (lookup k m ≡ none) × Distinct m

  -- The first of two values that is there.
  abbrev pub first_of : Option V → Option V → Option V
  first_of none o = o
  first_of (some v) o = some v

  pub lookup-merge :
      (k : String) (overrides m : Dict V)
      → Distinct overrides
      → lookup k (merge overrides m) ≡ first_of (lookup k overrides) (lookup k m)
  unfolding lookup merge
  lookup-merge k [] m d = refl
  lookup-merge k ((j, v) ∷ o) m d =
      ground (arith, eq_iff k j, lookup-merge k o (insert j v m) d.1, lookup-insert j k v m)
