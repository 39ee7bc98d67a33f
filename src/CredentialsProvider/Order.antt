-- ===== src/CredentialsProvider/Order.antt =====
-- `HandleSubmit` of credentialsprovider/credentialsprovider.go ranges over a Go map, whose order
-- differs from run to run: what it does is the same for every order.
use mathlib.Core.List.{Permᴰ}
use mathlib.Core.Path.{subst}
use mcp_authkit_go.Base.{String, some, [], ◌∷◌, ◌≡◌, ◌⊎◌, inl, inr, refl, ◌∙◌}
use mcp_authkit_go.Base.{arith, eq_iff, Bool-cases, Option-cases}
use mcp_authkit_go.Base.Dict.{Dict, lookup, insert, lookup-insert}
use mcp_authkit_go.Base.Action.{Result-cases}
use mcp_authkit_go.Host.{Library}
use mcp_authkit_go.Value.{Value, str, SameMap, string_at}
use mcp_authkit_go.Http.{Response}
use mcp_authkit_go.Middleware.{Request}
use mcp_authkit_go.CredentialsProvider.{
  Provider, Variable, collect, save, accept_form, handle_submit,
}
use mcp_authkit_go.CredentialsProvider.Submit.{is_blank}

-- The two maps have the same keys and values.
abbrev Alike : {V : Type 0} → Dict V → Dict V → Type 0
Alike a b = (k : String) → lookup k a ≡ lookup k b

-- Two runs of the loop end in the same way: both at a blank field, or with the same form.
abbrev pub SameOutcome : {V : Type 0} → String ⊎ Dict V → String ⊎ Dict V → Type 0
SameOutcome (inl a) (inl b) = Unit
SameOutcome (inr a) (inr b) = Alike a b
SameOutcome _ _ = ⊥

SameOutcome-trans :
    {V : Type 0} (x y z : String ⊎ Dict V) → SameOutcome x y → SameOutcome y z → SameOutcome x z
SameOutcome-trans (inl a) (inl b) (inl c) h k = tt
SameOutcome-trans (inl a) (inl b) (inr c) h k = elim k [ ]
SameOutcome-trans (inl a) (inr b) z h k = elim h [ ]
SameOutcome-trans (inr a) (inl b) z h k = elim h [ ]
SameOutcome-trans (inr a) (inr b) (inl c) h k = elim k [ ]
SameOutcome-trans (inr a) (inr b) (inr c) h k = λ key. h key ∙ k key

insert-Alike :
    {V : Type 0} (key : String) (value : V) (a b : Dict V)
    → Alike a b
    → Alike (insert key value a) (insert key value b)
insert-Alike key value a b h =
    λ k. ground (arith, lookup-insert key k value a, lookup-insert key k value b, h k)

module _ (lib : Library) {N : Type 0} (form : String → String) where
  abbrev run : Dict Variable → Dict (Value N) → String ⊎ Dict (Value N)
  run = collect lib form

  abbrev put : String → Dict (Value N) → Dict (Value N)
  put name = insert name (str (form name))

  -- The same fields, from alike maps.
  collect-Alike :
      (variables : Dict Variable) (a b : Dict (Value N))
      → Alike a b
      → SameOutcome (run variables a) (run variables b)
  unfolding collect
  collect-Alike [] a b h = h
  collect-Alike ((name, v) ∷ variables) a b h =
      let rest =
        collect-Alike variables (put name a) (put name b)
          (insert-Alike name (str (form name)) a b h) in
      elim (Bool-cases (is_blank lib form name v)) [
        | inl blank ↦ rw blank tt
        | inr filled ↦ rw filled rest
      ]

  put-put :
      (m n : String) (a b : Dict (Value N)) → Alike a b → Alike (put m (put n a)) (put n (put m b))
  put-put m n a b h k = ground (
    arith,
    lookup-insert m k (str (form m)) (put n a),
    lookup-insert n k (str (form n)) a,
    lookup-insert n k (str (form n)) (put m b),
    lookup-insert m k (str (form m)) b,
    h k,
    eq_iff m k,
    eq_iff n k,
  )

  collect-swap :
      (m n : String) (u v : Variable) (variables : Dict Variable) (a b : Dict (Value N))
      → Alike a b
      → SameOutcome (run ((m, u) ∷ (n, v) ∷ variables) a) (run ((n, v) ∷ (m, u) ∷ variables) b)
  unfolding collect
  collect-swap m n u v variables a b h =
      let rest = collect-Alike variables (put n (put m a)) (put m (put n b)) (put-put n m a b h) in
      elim (Bool-cases (is_blank lib form m u)) [
        | inl x ↦ elim (Bool-cases (is_blank lib form n v)) [
          | inl y ↦ rw (x, y) tt
          | inr y ↦ rw (x, y) tt
        ]
        | inr x ↦ elim (Bool-cases (is_blank lib form n v)) [
          | inl y ↦ rw (x, y) tt
          | inr y ↦ rw (x, y) rest
        ]
      ]

  collect-cons :
      (name : String) (v : Variable) (l r : Dict Variable) (a b : Dict (Value N))
      → SameOutcome (run l (put name a)) (run r (put name b))
      → SameOutcome (run ((name, v) ∷ l) a) (run ((name, v) ∷ r) b)
  unfolding collect
  collect-cons name v l r a b rest = elim (Bool-cases (is_blank lib form name v)) [
    | inl blank ↦ rw blank tt
    | inr filled ↦ rw filled rest
  ]

  -- Ranging over the fields in another order, the loop of `HandleSubmit` stops at a blank field in
  -- both runs or in none, and where it does not the two forms hold the same values.
  pub collect-Permᴰ :
      {variables others : Dict Variable}
      → Permᴰ variables others
      → (a b : Dict (Value N)) → Alike a b
      → SameOutcome (run variables a) (run others b)
  collect-Permᴰ Permᴰ.nil a b h = collect-Alike [] a b h
  collect-Permᴰ (Permᴰ.cons {a = x} {b = y} {l₁ = l} {l₂ = r} same rest) a b h =
      subst (λ z. SameOutcome (run (x ∷ l) a) (run (z ∷ r) b)) same
        (collect-cons x.0 x.1 l r a b
          (collect-Permᴰ rest (put x.0 a) (put x.0 b) (insert-Alike x.0 (str (form x.0)) a b h)))
  collect-Permᴰ (Permᴰ.swap {a = x} {b = y} {a' = x'} {b' = y'} {l = l} same other) a b h =
      subst (λ z. SameOutcome (run (x ∷ y ∷ l) a) (run (x' ∷ z ∷ l) b)) same
        (subst (λ z. SameOutcome (run (x ∷ y ∷ l) a) (run (z ∷ x ∷ l) b)) other
          (collect-swap x.0 y.0 x.1 y.1 l a b h))
  collect-Permᴰ (Permᴰ.trans first second) a b h =
      SameOutcome-trans _ _ _ (collect-Permᴰ first a a (λ k. refl)) (collect-Permᴰ second a b h)

module _ (lib : Library) {W N : Type 0} (p : Provider W N) where
  -- the provider whose map of fields is ranged over in another order
  abbrev pub reordered : Dict Variable → Provider W N
  reordered others = record p { variables = others }

  -- The same status and the same world.
  abbrev AlikeAnswers : Response String × W → Response String × W → Type 0
  AlikeAnswers x y = (x.0.status ≡ y.0.status) × (x.1 ≡ y.1)

  module _ {others : Dict Variable} (perm : Permᴰ p.variables others)
      (blind : (sub : String) (a b : Dict (Value N)) (w : W)
        → SameMap (some a) (some b)
        → p.creds_store.set sub (some a) w ≡ p.creds_store.set sub (some b) w)
      (r : Request (Value N)) where
    save-Alike :
        (token sub : String) (a b : Dict (Value N)) (w : W)
        → Alike a b
        → save lib p token sub a w ≡ save lib (reordered others) token sub b w
    unfolding save
    save-Alike token sub a b w h = rw (blind sub a b w h) refl

    settled :
        (token : String) (pending : Dict (Value N)) (w : W) (x y : String ⊎ Dict (Value N))
        → SameOutcome x y
        → collect lib r.form p.variables [] ≡ x
        → collect lib r.form others [] ≡ y
        → AlikeAnswers
            (accept_form lib p r token pending w)
            (accept_form lib (reordered others) r token pending w)
    unfolding accept_form
    settled token pending w (inl a) (inl b) h e f = (ground arith, ground arith)
    settled token pending w (inl a) (inr b) h e f = elim h [ ]
    settled token pending w (inr a) (inl b) h e f = elim h [ ]
    settled token pending w (inr a) (inr b) h e f =
        let same = save-Alike token (string_at "sub" pending) a b w h in
        (ground (arith, same), ground (arith, same))

    -- The order in which Go ranges over the fields does not matter: with a store that does not see
    -- the order of a map, a submission is answered with the same status and leaves the same world,
    -- whichever permutation of the fields the loop runs through.
    pub handle_submit-Permᴰ :
        (w : W)
        → let one = handle_submit lib p r w in
          let other = handle_submit lib (reordered others) r w in
          (one.0.status ≡ other.0.status) × (one.1 ≡ other.1)
    unfolding handle_submit
    handle_submit-Permᴰ w =
        let token = r.query "t" in
        let popped = p.pending_store.pop token w in
        elim (Result-cases popped.0) [
          | inr (e, bad) ↦ (ground arith, ground arith)
          | inl (found, got) ↦ elim (Option-cases found) [
            | inl nothing ↦ (ground arith, ground arith)
            | inr (pending, is) ↦
                let (status, world) =
                  settled token pending popped.1 _ _
                    (collect-Permᴰ lib {N = N} r.form perm [] [] (λ k. refl)) refl refl in
                (ground (arith, status), ground (arith, world))
          ]
        ]
