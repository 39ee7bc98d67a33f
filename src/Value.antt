-- ===== src/Value.antt =====
-- Go's `any` in the maps that the program stores and serves, and float64, which is a parameter.
use mcp_authkit_go.Base.{
  String, Bool, Option, List, none, some, [], ◌∷◌, ◌≡◌, ◌∙◌, refl, arith, eq_iff,
}
use mcp_authkit_go.Base.Int.{ℤ}
use mcp_authkit_go.Base.Dict.{Dict, lookup, lookup-cons}

-- The operations of float64 that the program uses, on a type `N` of floats.
pub record Float64 (N : Type 0) : Type 0 where
  -- float64(n) of an int or int64
  pub of_int : ℤ → N
  -- int(f)
  pub to_int : N → ℤ
  pub plus : N → N → N
  pub times : N → N → N
  -- a < b
  pub less : N → N → Bool
  -- d.Seconds() of a time.Duration, which counts nanoseconds
  pub seconds : ℤ → N

-- A value of type `any`, by its dynamic type.
pub data Value (N : Type 0) : Type 0 where
  null : Value N
  str : String → Value N
  bool : Bool → Value N
  float64 : N → Value N
  int : ℤ → Value N
  int64 : ℤ → Value N
  strings : List String → Value N
  -- any other dynamic type, by its Go syntax: the program only carries such a value
  other : String → Value N

-- map[string]any, where `none` is the nil map
abbrev pub GoMap : Type 0 → Type 0
GoMap V = Option (Dict V)

-- The two maps have the same keys and values, in whatever order.
abbrev pub SameMap : {V : Type 0} → GoMap V → GoMap V → Type 0
SameMap none none = Unit
SameMap (some a) (some b) = (k : String) → lookup k a ≡ lookup k b
SameMap _ _ = ⊥

-- What agrees with a map that is not nil is not nil.
pub SameMap-some :
    {V : Type 0} (x : GoMap V) (m : Dict V)
    → SameMap x (some m)
    → (d : Dict V) × (x ≡ some d) × ((k : String) → lookup k d ≡ lookup k m)
SameMap-some none m h = elim h [ ]
SameMap-some (some d) m h = (d, refl, h)

module _ {N : Type 0} where
  abbrev pub as_string : Option (Value N) → Option String
  as_string (some (str s)) = some s
  as_string _ = none

  -- s, _ := m[k].(string), which is "" for another dynamic type and a missing key
  unfoldable pub string_at : String → Dict (Value N) → String
  string_at k m = elim (as_string (lookup k m)) [ none ↦ "" | some s ↦ s ]

  -- A value whose dynamic type encoding/json keeps; it decodes an integer as a float64, and a list
  -- of strings as one of `any`.
  abbrev pub IsPlain : Value N → Type 0
  IsPlain null = Unit
  IsPlain (str _) = Unit
  IsPlain (bool _) = Unit
  IsPlain (float64 _) = Unit
  IsPlain _ = ⊥

  -- What is stored of a map has its plain values, and no other keys.
  abbrev pub KeepsPlain : (GoMap (Value N) → GoMap (Value N)) → Type 0
  KeepsPlain stored =
      (m : Dict (Value N))
      → (d : Dict (Value N)) × (stored (some m) ≡ some d)
        × ((k : String) (v : Value N) → lookup k m ≡ some v → IsPlain v → lookup k d ≡ some v)
        × ((k : String) → lookup k m ≡ none → lookup k d ≡ none)

  -- What comes back with all its fields does.
  pub SameMap-KeepsPlain :
      (stored : GoMap (Value N) → GoMap (Value N))
      → ((m : GoMap (Value N)) → SameMap (stored m) m)
      → KeepsPlain stored
  SameMap-KeepsPlain stored same m =
      let (d, is, fields) = SameMap-some (stored (some m)) m (same (some m)) in
      (d, is, λ k v at plain. fields k ∙ at, λ k free. fields k ∙ free)

  -- The text of a single field comes back from a map whose plain fields do.
  pub string_at-kept :
      (stored : GoMap (Value N) → GoMap (Value N)) (k text : String) (d : Dict (Value N))
      → KeepsPlain stored
      → stored (some ((k, str text) ∷ [])) ≡ some d
      → string_at k d ≡ text
  unfolding string_at
  string_at-kept stored k text d fields_stored back =
      let own : Value N = str text in
      let (d', is, plain, free) = fields_stored ((k, own) ∷ []) in
      let at : lookup k ((k, own) ∷ []) ≡ some own =
        ground (arith, lookup-cons k k own [], eq_iff k k) in
      let same : lookup k d' ≡ some own = plain k own at tt in ground (arith, is, back, same)

  abbrev pub as_float : Option (Value N) → Option N
  as_float (some (float64 x)) = some x
  as_float _ = none
