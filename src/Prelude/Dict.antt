-- ===== src/Prelude/Dict.antt =====
-- Go's `map[string]V` as an association list. The order of a Go map is unspecified, so what is
-- stated of a map elsewhere goes through `lookup`.
use Prim.Native.String.{String}
use mathlib.Core.Path.{◌≡◌, refl}
use mathlib.Core.Option.{Option, none, some}
use mathlib.Core.List.{List, [], ◌∷◌}
use native.Mathlib.Omega.{arith}
use text.Mathlib.TextEquality.{eq_iff}
use manipulate.Prelude.Tests.{◌==◌, if◌then◌else◌}

abbrev pub Dict {ℓ} : Type ℓ → Type ℓ
Dict V = List (String × V)

module _ {ℓ} {V : Type ℓ} where
  -- v, ok := m[key]
  unfoldable pub lookup : String → Dict V → Option V
  lookup key [] = none
  lookup key ((other, v) ∷ m) = if other == key then some v else lookup key m

  -- delete(m, key)
  unfoldable pub remove : String → Dict V → Dict V
  remove key [] = []
  remove key ((other, v) ∷ m) =
      let rest = remove key m in if other == key then rest else (other, v) ∷ rest

  pub lookup-remove :
      (key asked : String) (m : Dict V)
      → lookup asked (remove key m) ≡ (if key == asked then none else lookup asked m)
  unfolding lookup remove
  lookup-remove key asked [] = ground arith
  lookup-remove key asked ((other, v) ∷ m) =
      ground
        (arith, lookup-remove key asked m, eq_iff other asked, eq_iff other key, eq_iff key asked)

  -- m[key] = new, where the key keeps its place
  unfoldable pub insert : String → V → Dict V → Dict V
  insert key new [] = (key, new) ∷ []
  insert key new ((other, v) ∷ m) =
      if other == key then (other, new) ∷ m else (other, v) ∷ insert key new m

  pub lookup-insert :
      (key asked : String) (new : V) (m : Dict V)
      → lookup asked (insert key new m) ≡ (if key == asked then some new else lookup asked m)
  unfolding insert lookup
  lookup-insert key asked new [] = refl
  lookup-insert key asked new ((other, v) ∷ m) =
      ground (
        arith,
        lookup-insert key asked new m,
        eq_iff other asked,
        eq_iff other key,
        eq_iff key asked,
      )
