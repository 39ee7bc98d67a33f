-- ===== src/Tests/Names.antt =====
-- An encoding of texts that takes different texts to different ones, in the place of the hash.
use text.Mathlib.TextEquality.{Char-path}
use Prim.Native.Char.{Char, code}
use text.Mathlib.TextLemmas.{head-eq_of_cons-eq, tail-eq_of_cons-eq}
use mcp_authkit_go.Base.Text.{occurs}
use mcp_authkit_go.Base.{ℕ, zero, suc, String, List, [], ◌∷◌, ◌≡◌, ◌≢◌, refl, sym, ap, arith}

-- `n` letters a, and a letter b in front of the rest
abbrev pub mark : ℕ → String → String
mark zero s = String.◌∷◌ "b" s
mark (suc n) s = String.◌∷◌ "a" (mark n s)

abbrev pub marks : List ℕ → String
marks [] = ""
marks (n ∷ b) = mark n (marks b)

abbrev pub codes : String → List ℕ
codes String.[] = []
codes (String.◌∷◌ first others) = code first ∷ codes others

pub heads : {c d : Char} {s t : String} → String.◌∷◌ c s ≡ String.◌∷◌ d t → code c ≡ code d
heads e = ap code (head-eq_of_cons-eq e)

mark_inj : (n m : ℕ) (s t : String) → mark n s ≡ mark m t → (n ≡ m) × (s ≡ t)
mark_inj zero zero s t e = (refl, tail-eq_of_cons-eq e)
mark_inj zero (suc m) s t e = absurd (omega (arith, heads e))
mark_inj (suc n) zero s t e = absurd (omega (arith, heads e))
mark_inj (suc n) (suc m) s t e =
    let (same, rest) = mark_inj n m s t (tail-eq_of_cons-eq e) in (ap suc same, rest)

nil_mark : (n : ℕ) (s : String) → "" ≢ mark n s
nil_mark zero s e = cc
nil_mark (suc n) s e = cc

pub marks_inj : (a b : String) → marks (codes a) ≡ marks (codes b) → a ≡ b
marks_inj String.[] String.[] e = refl
marks_inj String.[] (String.◌∷◌ d t) e = absurd (nil_mark _ _ e)
marks_inj (String.◌∷◌ c s) String.[] e = absurd (nil_mark _ _ (sym e))
marks_inj (String.◌∷◌ c s) (String.◌∷◌ d t) e =
    let (same, rest) = mark_inj (code c) (code d) (marks (codes s)) (marks (codes t)) e in
    let head = Char-path c d same in let tail = marks_inj s t rest in cc

-- Names have no characters but a and b.
occurs-mark : (c n : ℕ) (s : String) → c ≢ 97 → c ≢ 98 → occurs c s ≡ 0 → occurs c (mark n s) ≡ 0
unfolding occurs
occurs-mark c zero s a b e = ground (arith, a, b, e)
occurs-mark c (suc n) s a b e = ground (arith, a, b, occurs-mark c n s a b e)

pub occurs-marks : (c : ℕ) (l : List ℕ) → c ≢ 97 → c ≢ 98 → occurs c (marks l) ≡ 0
unfolding occurs
occurs-marks c [] a b = refl
occurs-marks c (n ∷ l) a b = occurs-mark c n (marks l) a b (occurs-marks c l a b)
