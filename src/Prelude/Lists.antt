-- ===== src/Prelude/Lists.antt =====
-- Lists and options as the TypeScript code uses them: `includes`, `length`, `??`, and tables that
-- are functions of a text.
use Prim.Native.Nat.{ℕ, suc}
use Prim.Native.String.{String}
use mathlib.Core.Path.{◌≡◌, refl}
use mathlib.Core.Logic.{◌≢◌}
use mathlib.Core.Bool.{Bool, true, false, ◌||◌}
use mathlib.Core.Option.{Option, none, some}
use mathlib.Core.List.{List, [], ◌∷◌, ◌++◌}
use native.Mathlib.Omega.{arith}
use text.Mathlib.Text.{◌==◌ as str_eq}
use text.Mathlib.TextEquality.{eq_iff}
use durable_effect.Prelude.Tests.{if◌then◌else◌}

module _ {ℓ} {A : Type ℓ} where
  abbrev pub length : List A → ℕ
  length [] = 0
  length (x ∷ xs) = suc (length xs)

  -- `xs.includes(x)`, by a test of equality
  abbrev pub includes_by : (A → A → Bool) → A → List A → Bool
  includes_by same x [] = false
  includes_by same x (y ∷ ys) = same y x || includes_by same x ys

  -- `o ?? d`
  abbrev pub or_else : Option A → A → A
  or_else none d = d
  or_else (some a) d = a

  abbrev pub is_some : Option A → Bool
  is_some none = false
  is_some (some a) = true

  -- a table of the store, and a write at one text
  abbrev pub update : (String → A) → String → A → String → A
  update f k v j = if str_eq k j then v else f j

  pub update_self : (f : String → A) (k : String) (v : A) → update f k v k ≡ v
  update_self f k v = ground (arith, eq_iff k k)

  pub update_ne : (f : String → A) (k j : String) (v : A) → k ≢ j → update f k v j ≡ f j
  update_ne f k j v h = ground (arith, eq_iff k j)

-- a text that JavaScript takes for true: one that is there and is not empty
abbrev pub non_empty : Option String → Option String
non_empty none = none
non_empty (some s) = if str_eq s "" then none else some s

abbrev pub includes : String → List String → Bool
includes = includes_by str_eq

-- An item appended to a list is found, and the others are found as before.
pub includes-append :
    (x y : String) (ys : List String) → includes x (ys ++ y ∷ []) ≡ (includes x ys || str_eq y x)
includes-append x y [] = ground arith
includes-append x y (z ∷ zs) = ground (arith, includes-append x y zs)

-- No text stands twice in the list.
abbrev pub IsUnique : List String → Type 0
IsUnique [] = Unit
IsUnique (x ∷ xs) = (includes x xs ≡ false) × IsUnique xs

pub append-IsUnique :
    (xs : List String) (y : String) → IsUnique xs → includes y xs ≡ false → IsUnique (xs ++ y ∷ [])
append-IsUnique [] y u h = (refl, tt)
append-IsUnique (x ∷ xs) y u h = (
  ground (arith, includes-append x y xs, eq_iff x y, eq_iff y x),
  append-IsUnique xs y u.1 (ground arith),
)
