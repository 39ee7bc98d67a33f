-- ===== src/CredentialsProvider/Submit.antt =====
-- What `HandleSubmit` of credentialsprovider/credentialsprovider.go stores, and when.
use mcp_authkit_go.Base.{
  String, Bool, true, false, ◌&&◌, Option, none, some, [], ◌∷◌, ◌≡◌, ◌≢◌, inl, inr, refl,
}
use mcp_authkit_go.Base.{
  arith, eq_iff, ℕ, suc, ◌==◌, get_elem?, Bool-cases, Option-cases, Sum-cases,
}
use mcp_authkit_go.Base.Dict.{Dict, lookup, insert, lookup-insert, lookup-nil, lookup-cons}
use mcp_authkit_go.Base.Int.{pos}
use mcp_authkit_go.Base.Action.{Error, ok, err, Result-cases}
use mcp_authkit_go.Host.{Library}
use mcp_authkit_go.Value.{Value, str, bool, GoMap, string_at}
use mcp_authkit_go.Store.{TokenStore, IsOneShot}
use mcp_authkit_go.Middleware.{Request}
use mcp_authkit_go.CredentialsProvider.{
  Provider, Variable, collect, save, accept_form, handle_submit,
}

module _ (lib : Library) (form : String → String) where
  -- the field is required and blank
  abbrev pub is_blank : String → Variable → Bool
  is_blank name v = v.required && lib.trim_space (form name) == ""

  abbrev pub collected_at :
      {N : Type 0} → Dict Variable → Dict (Value N) → String → Option (Value N)
  collected_at variables acc k = elim (lookup k variables) [
    | none ↦ lookup k acc
    | some _ ↦ some (str (form k))
  ]

  -- What the loop adds to the map that it is given.
  pub lookup-collect :
      {N : Type 0} (variables : Dict Variable) (acc c : Dict (Value N))
      → collect lib form variables acc ≡ inr c
      → (k : String)
      → (lookup k c ≡ collected_at variables acc k)
        × ((v : Variable) → lookup k variables ≡ some v → is_blank k v ≡ false)
  unfolding collect
  lookup-collect [] acc c e k =
      let missing = lookup-nil {V = Variable} k in
      (ground (arith, missing), λ v f. ground (arith, missing))
  lookup-collect ((name, v) ∷ variables) acc c e k = elim (Bool-cases (is_blank name v)) [
    | inl blank ↦ absurd (ground arith)
    | inr filled ↦
        let (now, checked) =
          lookup-collect variables (insert name (str (form name)) acc) c (ground arith) k in
        let put = lookup-insert name k (str (form name)) acc in
        let first = lookup-cons k name v variables in
        (
          ground (arith, now, put, first, eq_iff name k),
          λ u f. ground (arith, checked u, first, eq_iff name k, filled),
        )
  ]

  -- The loop stops at a field only if it is required and blank.
  pub collect-blank :
      {N : Type 0} (variables : Dict Variable) (acc : Dict (Value N)) (label : String)
      → collect lib form variables acc ≡ inl label
      → (i : ℕ) × (name : String) × (v : Variable) × (get_elem? variables i ≡ some (name, v))
        × (is_blank name v ≡ true)
        × (label ≡ v.label)
  unfolding collect
  collect-blank [] acc label e = absurd (ground arith)
  collect-blank ((name, v) ∷ variables) acc label e = elim (Bool-cases (is_blank name v)) [
    | inl blank ↦ (0, name, v, refl, blank, ground (arith, blank))
    | inr filled ↦
        let (i, n, u, at, blank, same) =
          collect-blank variables (insert name (str (form name)) acc) label
            (ground (arith, filled)) in
        (suc i, n, u, at, blank, same)
  ]

module _ {W N : Type 0} (lib : Library) (p : Provider W N) where
  -- What a submission must have for its form to be stored.
  pub record Granted (r : Request (Value N)) (w : W) (pending collected : Dict (Value N))
      : Type 0 where
    pub has_token : r.query "t" ≢ ""
    pub popped : (p.pending_store.pop (r.query "t") w).0 ≡ ok (some pending)
    pub parsed : r.form_error ≡ ok tt
    pub complete : collect lib r.form p.variables [] ≡ inr collected

  abbrev pub with_store : TokenStore W (Value N) → Provider W N
  with_store store = record p { creds_store = store }

  -- A submission reaches the store of credentials only with a token whose entry it pops, a form
  -- that parses and every required field filled in. Then the store gets, under the subject of the
  -- pending entry and no other, the value of each configured field and nothing else, and the answer
  -- is 200 if the store took it and 500 if it did not. Any other submission is answered with 400,
  -- whatever the store.
  pub handle_submit_guard :
      (r : Request (Value N)) (w : W)
      → ((pending collected : Dict (Value N))
          → Granted r w pending collected
          → let sub = string_at "sub" pending in
            let w' = (p.pending_store.pop (r.query "t") w).1 in
            (handle_submit lib p r w ≡ save lib p (r.query "t") sub collected w')
            × ((k : String)
                → (lookup k collected ≡ collected_at lib r.form p.variables [] k)
                  × ((v : Variable)
                      → lookup k p.variables ≡ some v
                      → is_blank lib r.form k v ≡ false))
            × ((p.creds_store.set sub (some collected) w').0 ≡ ok tt
                → (handle_submit lib p r w).0.status ≡ 200)
            × ((e : Error)
                → (p.creds_store.set sub (some collected) w').0 ≡ err e
                → (handle_submit lib p r w).0.status ≡ 500))
        × (((pending collected : Dict (Value N)) → ¬ Granted r w pending collected)
            → ((handle_submit lib p r w).0.status ≡ 400)
              × ((store : TokenStore W (Value N))
                  → handle_submit lib p r w ≡ handle_submit lib (with_store store) r w))
  unfolding handle_submit save accept_form
  handle_submit_guard r w =
      let token = eq_iff (r.query "t") "" in
      (
        λ pending collected g.
            let filled = lookup-collect lib r.form p.variables [] collected g.complete in
            (
              ground (arith, token, g.has_token, g.popped, g.parsed, g.complete),
              filled,
              λ stored. ground (arith, token, g.has_token, g.popped, g.parsed, g.complete),
              λ e failed. ground (arith, token, g.has_token, g.popped, g.parsed, g.complete),
            ),
        λ free. elim (Bool-cases (r.query "t" == "")) [
          | inl missing ↦ (ground arith, λ store. ground arith)
          | inr given ↦ elim (Result-cases (p.pending_store.pop (r.query "t") w).0) [
            | inr (e, bad) ↦ (ground arith, λ store. ground arith)
            | inl (found, got) ↦ elim (Option-cases found) [
              | inl nothing ↦ (ground arith, λ store. ground arith)
              | inr (pending, is) ↦ elim (Result-cases r.form_error) [
                | inr (e, bad) ↦ (ground arith, λ store. ground arith)
                | inl (_, parsed) ↦ elim (Sum-cases (collect lib {N = N} r.form p.variables [])) [
                  | inl (label, blank) ↦ (ground arith, λ store. ground arith)
                  | inr (collected, complete) ↦ absurd (
                      free pending collected (record {
                        has_token = λ z. ground (arith, token);
                        popped = cc (got, is);
                        parsed = parsed;
                        complete = complete;
                      }))
                ]
              ]
            ]
          ]
        ],
      )

  module _ {gone : String → W → Type 0} (shot : IsOneShot p.pending_store gone)
      (kept : (k sub : String) (m : GoMap (Value N)) (w : W)
        → gone k w
        → gone k (p.creds_store.set sub m w).1) where
    save-gone :
        (k token sub : String) (c : Dict (Value N)) (w : W)
        → gone k w
        → gone k (save lib p token sub c w).1
    unfolding save
    save-gone k token sub c w g = elim (Result-cases (p.creds_store.set sub (some c) w).0) [
      | inr (e, bad) ↦
          let at : (save lib p token sub c w).1 ≡ (p.creds_store.set sub (some c) w).1 =
            ground arith in
          rw at (kept k sub (some c) w g)
      | inl (_, done) ↦
          let w' = (p.creds_store.set sub (some c) w).1 in
          let result = ("sub", str sub) ∷ ("_elicit_sent", bool false) ∷ [] in
          let at : (save lib p token sub c w).1
              ≡ (p.pending_store.set_result token (some result) (pos 120) w').1 =
            ground arith in
          rw at (shot.gone-set_result k token (some result) (pos 120) w' (kept k sub (some c) w g))
    ]

    accept_form-gone :
        (k token : String) (r : Request (Value N)) (m : Dict (Value N)) (w : W)
        → gone k w
        → gone k (accept_form lib p r token m w).1
    unfolding accept_form
    accept_form-gone k token r m w g = elim (Result-cases r.form_error) [
      | inr (e, bad) ↦ let at : (accept_form lib p r token m w).1 ≡ w = ground arith in rw at g
      | inl (_, parsed) ↦ elim (Sum-cases (collect lib {N = N} r.form p.variables [])) [
        | inl (label, blank) ↦
            let at : (accept_form lib p r token m w).1 ≡ w = ground arith in rw at g
        | inr (c, complete) ↦
            let sub = string_at "sub" m in
            let at : accept_form lib p r token m w ≡ save lib p token sub c w = ground arith in
            rw at (save-gone k token sub c w g)
      ]
    ]

    handle_submit-gone :
        (r : Request (Value N)) (w : W) (popped : GoMap (Value N))
        → r.query "t" ≢ ""
        → (p.pending_store.pop (r.query "t") w).0 ≡ ok popped
        → gone (r.query "t") (handle_submit lib p r w).1
    unfolding handle_submit
    handle_submit-gone r w popped given got =
        let token = r.query "t" in
        let g = shot.gone-pop token popped w got in
        let has : (token == "") ≡ false = ground (arith, eq_iff token "", given) in
        elim (Option-cases popped) [
          | inl nothing ↦
              let at : (handle_submit lib p r w).1 ≡ (p.pending_store.pop token w).1 =
                ground arith in
              rw at g
          | inr (m, is) ↦
              let w' = (p.pending_store.pop token w).1 in
              let at : handle_submit lib p r w ≡ accept_form lib p r token m w' = ground arith in
              rw at (accept_form-gone token token r m w' g)
        ]

    -- A form is taken once: with a pending store that hands an entry out once, and a store of
    -- credentials that does not bring a popped entry back, a second submission with the token of a
    -- first, which was not empty and whose pop did not fail, is answered with 400 and leaves the
    -- store of credentials out, whatever the two forms hold.
    pub handle_submit_once :
        (first second : Request (Value N)) (w : W) (popped : GoMap (Value N))
        → first.query "t" ≢ ""
        → first.query "t" ≡ second.query "t"
        → (p.pending_store.pop (first.query "t") w).0 ≡ ok popped
        → let w' = (handle_submit lib p first w).1 in
          ((handle_submit lib p second w').0.status ≡ 400)
          × ((store : TokenStore W (Value N))
              → handle_submit lib p second w' ≡ handle_submit lib (with_store store) second w')
    handle_submit_once first second w popped given same got =
        let w' = (handle_submit lib p first w).1 in
        let none_left =
          shot.pop-gone (first.query "t") w' (handle_submit-gone first w popped given got) in
        (handle_submit_guard second w').1
          (λ pending collected g. ground (arith, none_left, g.popped, same))
