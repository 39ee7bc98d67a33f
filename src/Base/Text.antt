-- ===== src/Base/Text.antt =====
-- How often a character stands in a text.
use text.Mathlib.TextLemmas.{nil-append, cons-append, tail-eq_of_cons-eq}
use Prim.Native.Char.{Char, code}
use Prim.Native.Nat.{ℕ, ◌+◌}
use Prim.Native.String.{String, ◌++◌ as ◌<>◌}
use mathlib.Core.Path.{◌≡◌, sym, ap, ◌∙◌}
use native.Mathlib.Omega.{arith}
use mcp_authkit_go.Base.Tests.{eqb, if◌then◌else◌}

-- The character is given by its code.
unfoldable pub occurs : ℕ → String → ℕ
occurs c String.[] = 0
occurs c (String.◌∷◌ d s) = (if eqb (code d) c then 1 else 0) + occurs c s

pub occurs-append : (c : ℕ) (s t : String) → occurs c (s <> t) ≡ occurs c s + occurs c t
unfolding occurs
occurs-append c String.[] t = rw nil-append (omega arith)
occurs-append c (String.◌∷◌ d s) t = rw cons-append (omega (arith, occurs-append c s t))

-- A text with the character in it.
occurs_mid : (c : Char) (b y x : String) → occurs (code c) x ≡ 0 → x ≡ b <> String.◌∷◌ c y → ⊥
unfolding occurs
occurs_mid c b y x none_in e =
    let parts = occurs-append (code c) b (String.◌∷◌ c y) in ground (arith, ap (occurs (code c)) e)

-- What stands after the last of a character is the same in equal texts.
pub after_last :
    (c : Char) (a b x y : String)
    → occurs (code c) x ≡ 0
    → occurs (code c) y ≡ 0
    → a <> String.◌∷◌ c x ≡ b <> String.◌∷◌ c y
    → x ≡ y
unfolding occurs
after_last c String.[] String.[] x y f g e =
    tail-eq_of_cons-eq (sym (nil-append _) ∙ e ∙ nil-append _)
after_last c String.[] (String.◌∷◌ d b) x y f g e =
    absurd (occurs_mid c b y x f (tail-eq_of_cons-eq (sym (nil-append _) ∙ e ∙ cons-append d b _)))
after_last c (String.◌∷◌ d a) String.[] x y f g e =
    absurd
      (occurs_mid c a x y g (tail-eq_of_cons-eq (sym (nil-append _) ∙ sym e ∙ cons-append d a _)))
after_last c (String.◌∷◌ d a) (String.◌∷◌ d' b) x y f g e =
    after_last c a b x y f g (tail-eq_of_cons-eq (sym (cons-append d a _) ∙ e ∙ cons-append d' b _))
