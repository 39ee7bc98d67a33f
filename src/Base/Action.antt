-- ===== src/Base/Action.antt =====
-- Go functions with effects and errors. An action takes the world (the stores, the file system, the
-- clock, the network) and returns its value and the next world; an error is a value.
use Prim.Native.String.{String}
use mathlib.Core.Path.{◌≡◌, refl}
use mathlib.Core.Logic.{◌⊎◌, inl, inr}
use mathlib.Core.List.{List}

pub record ElicitParams : Type 0 where
  pub mode : String
  pub message : String
  pub url : String
  pub elicitation_id : String

pub data Error : Type 0 where
  -- errors.New, fmt.Errorf with no %w, and the errors that a library returns
  message : String → Error
  -- fmt.Errorf("prefix: %w", err)
  wrapped : String → Error → Error
  -- mcp.URLElicitationRequiredError
  elicitation_required : List ElicitParams → Error

pub data Result {ℓ} (A : Type ℓ) : Type ℓ where
  ok : A → Result A
  err : Error → Result A

abbrev pub Action {ℓ κ} : Type ℓ → Type κ → Type (ℓ ⊔ κ)
Action W A = W → A × W

abbrev pub pure {ℓ κ} : {W : Type ℓ} {A : Type κ} → A → Action W A
pure a w = (a, w)

infixl 5 ◌>>=◌ ◌>>◌
abbrev pub ◌>>=◌ {ℓ κ μ} :
    {W : Type ℓ} {A : Type κ} {B : Type μ} → Action W A → (A → Action W B) → Action W B
◌>>=◌ m f w = f (m w).0 (m w).1

abbrev pub ◌>>◌ {ℓ κ μ} :
    {W : Type ℓ} {A : Type κ} {B : Type μ} → Action W A → Action W B → Action W B
◌>>◌ m k w = k (m w).1

-- `if err != nil { return nil, fmt.Errorf("prefix: %w", err) }`
abbrev pub wrap_error {ℓ} : {A : Type ℓ} → String → Result A → Result A
wrap_error prefix (ok a) = ok a
wrap_error prefix (err e) = err (wrapped prefix e)

infixl 5 ◌>>=?◌
-- the rest of a function that returns on an error
abbrev pub ◌>>=?◌ {ℓ κ} : {A : Type ℓ} {B : Type κ} → Result A → (A → Result B) → Result B
ok a >>=? f = f a
err e >>=? f = err e

pub Result-cases {ℓ} :
    {A : Type ℓ} (r : Result A) → ((a : A) × (r ≡ ok a)) ⊎ ((e : Error) × (r ≡ err e))
Result-cases (ok a) = inl (a, refl)
Result-cases (err e) = inr (e, refl)
