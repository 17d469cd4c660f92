-- ===== src/Prelude/Lists.antt =====
-- Lists measured by native numbers, and texts put together from pieces.
use Prim.Native.Nat.{ℕ, suc, ◌+◌}
use Prim.Native.String.{String, ◌++◌ as str_append}
use mathlib.Core.Path.{◌≡◌}
use mathlib.Core.List.{List, [], ◌∷◌, ◌++◌}
use native.Mathlib.Omega.{arith}

module _ {ℓ} {A : Type ℓ} where
  abbrev pub length : List A → ℕ
  length [] = 0
  length (x ∷ xs) = suc (length xs)

  pub length-append : (xs ys : List A) → length (xs ++ ys) ≡ length xs + length ys
  length-append [] ys = omega arith
  length-append (x ∷ xs) ys = omega (arith, length-append xs ys)

abbrev pub map {ℓ κ} : {A : Type ℓ} {B : Type κ} → (A → B) → List A → List B
map f [] = []
map f (x ∷ xs) = f x ∷ map f xs

-- A predicate on each element, which computes to a tuple.
abbrev pub All {ℓ κ} : {A : Type ℓ} → (A → Type κ) → List A → Type κ
All P [] = Unit
All P (x ∷ xs) = P x × All P xs

-- `fmt.Sprintf`, `+` and `WriteString` on texts: the pieces one after the other.
abbrev pub concat : List String → String
concat [] = ""
concat (s ∷ rest) = str_append s (concat rest)
