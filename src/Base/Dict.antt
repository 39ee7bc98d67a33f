-- ===== src/Base/Dict.antt =====
-- Go's `map[string]V` as an association list: the first entry of a key counts. The program never
-- depends on the order of a map's entries.
use Prim.Native.String.{String}
use mathlib.Core.Path.{◌≡◌, refl}
use mathlib.Core.Option.{Option, none, some}
use mathlib.Core.List.{List, [], ◌∷◌}
use native.Mathlib.Omega.{arith}
use text.Mathlib.Text.{◌==◌}
use text.Mathlib.TextEquality.{eq_iff}
use mcp_authkit_go.Base.Tests.{if◌then◌else◌}

abbrev pub Dict {ℓ} : Type ℓ → Type ℓ
Dict V = List (String × V)

module _ {ℓ} {V : Type ℓ} where
  -- delete(m, key)
  unfoldable pub remove : String → Dict V → Dict V
  remove key [] = []
  remove key ((name, x) ∷ rest) =
      let others = remove key rest in if name == key then others else (name, x) ∷ others

  -- m[key] = value, at the place of the key's first entry, or at the end
  unfoldable pub insert : String → V → Dict V → Dict V
  insert key value [] = (key, value) ∷ []
  insert key value ((name, x) ∷ rest) =
      if name == key then (key, value) ∷ rest else (name, x) ∷ insert key value rest

  -- m[key], with `none` for a missing key
  unfoldable pub lookup : String → Dict V → Option V
  lookup key [] = none
  lookup key ((name, x) ∷ rest) = if name == key then some x else lookup key rest

  pub lookup-remove :
      (key other : String) (m : Dict V)
      → lookup other (remove key m) ≡ (if key == other then none else lookup other m)
  unfolding remove lookup
  lookup-remove key other [] = ground arith
  lookup-remove key other ((name, x) ∷ rest) =
      ground
        (arith, lookup-remove key other rest, eq_iff name key, eq_iff name other, eq_iff key other)

  pub lookup-insert :
      (key other : String) (value : V) (m : Dict V)
      → lookup other (insert key value m) ≡ (if key == other then some value else lookup other m)
  unfolding insert lookup
  lookup-insert key other value [] = refl
  lookup-insert key other value ((name, x) ∷ rest) = ground (
    arith,
    lookup-insert key other value rest,
    eq_iff name key,
    eq_iff name other,
    eq_iff key other,
  )

pub lookup-nil {ℓ} : {V : Type ℓ} (k : String) → lookup {V = V} k [] ≡ none
unfolding lookup
lookup-nil k = refl

pub lookup-cons {ℓ} :
    {V : Type ℓ} (k j : String) (v : V) (m : Dict V)
    → lookup k ((j, v) ∷ m) ≡ (if j == k then some v else lookup k m)
unfolding lookup
lookup-cons k j v m = refl

pub ruleset dict_laws = (lookup-nil, lookup-insert, lookup-remove)
