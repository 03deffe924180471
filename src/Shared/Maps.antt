-- ===== src/Shared/Maps.antt =====
-- Go maps as lists of entries, in the order in which `range` visits them.
use mathlib.Core.Path.{◌≡◌, refl}
use mathlib.Core.Option.{Option, none, some}
use mathlib.Core.List.{List, [], ◌∷◌}
use Prim.Native.String.{String}
use native.Mathlib.Omega.{arith}
use text.Mathlib.TextEquality.{eq_iff}
use nodelet.Shared.Tests.{◌==◌, if◌then◌else◌}

module _ {ℓ} {A : Type ℓ} where
  unfoldable pub lookup : String → List (String × A) → Option A
  lookup key [] = none
  lookup key (entry ∷ rest) = if entry.0 == key then some entry.1 else lookup key rest

  -- The assignment `m[key] = value`.
  unfoldable pub insert : String → A → List (String × A) → List (String × A)
  insert key value [] = (key, value) ∷ []
  insert key value (entry ∷ rest) =
      let others = insert key value rest in
      if entry.0 == key then (key, value) ∷ rest else entry ∷ others

  pub lookup-insert :
      (key other : String) (value : A) (entries : List (String × A))
      → lookup other (insert key value entries)
        ≡ (if key == other then some value else lookup other entries)
  unfolding lookup insert
  lookup-insert key other value [] = refl
  lookup-insert key other value (entry ∷ rest) =
      let ih = lookup-insert key other value rest in
      ground (arith, ih, eq_iff entry.0 key, eq_iff entry.0 other, eq_iff key other)

  pub lookup-nil : (key : String) → lookup key [] ≡ none
  unfolding lookup
  lookup-nil key = refl

  -- `delete(m, key)`.
  unfoldable pub delete : String → List (String × A) → List (String × A)
  delete key [] = []
  delete key (entry ∷ rest) =
      let others = delete key rest in if entry.0 == key then others else entry ∷ others

  pub lookup-delete :
      (key other : String) (entries : List (String × A))
      → lookup other (delete key entries) ≡ (if key == other then none else lookup other entries)
  unfolding lookup delete
  lookup-delete key other [] = ground arith
  lookup-delete key other (entry ∷ rest) =
      let ih = lookup-delete key other rest in
      ground (arith, ih, eq_iff entry.0 key, eq_iff entry.0 other, eq_iff key other)
