-- ===== src/JwtValidator/Concurrent/Provenance.antt =====
-- Where the discovery documents of jwtvalidator/jwtvalidator.go come from, however its calls
-- interleave.
use mcp_authkit_go.Base.{ℕ, String, some, ◌≡◌, sym, refl, arith, eq_iff, ◌<>◌, inl, inr}
use mcp_authkit_go.Base.{eqb, Bool-cases, Option-cases, ◌==◌}
use mcp_authkit_go.Base.Dict.{Dict, lookup, insert, lookup-nil, lookup-insert}
use mcp_authkit_go.Base.Action.{ok, err, Result-cases}
use mcp_authkit_go.Host.{Library}
use mcp_authkit_go.Http.{HttpClient}
use mcp_authkit_go.JwtValidator.Complete.{Passes}
use mcp_authkit_go.JwtValidator.{
  OidcConfig, Validator, Jwx, read_config, fetch_config, get_oidc_config,
}
use mcp_authkit_go.JwtValidator.Concurrent.{
  Call, idle, missed, fetched, returned, Calls, place, Step, hit, miss, fetch, fail, remember,
  elsewhere, Steps, here, next, Served, HasServed, AllServed, Known, start,
}

module _ {W KeySet Token V : Type 0} (http : HttpClient W) (jwx : Jwx W KeySet Token V)
    (lib : Library) where
  fetch_config-Served :
      (url : String) (w : W) (cfg : OidcConfig)
      → (fetch_config http jwx lib url w).0 ≡ ok cfg
      → Served http jwx lib url cfg
  unfolding fetch_config read_config
  fetch_config-Served url w cfg e =
      elim (Result-cases (http.new_request "GET" (url <> "/.well-known/openid-configuration") "")) [
        | inr (x, bad) ↦ absurd (ground arith)
        | inl (req, made) ↦ elim (Result-cases (http.send req w).0) [
          | inr (x, bad) ↦ absurd (ground arith)
          | inl (resp, answered) ↦ elim (Result-cases (jwx.decode_config resp.body)) [
            | inr (x, bad) ↦ absurd (ground arith)
            | inl (c, good) ↦ record {
              req = req;
              made = made;
              resp = resp;
              before = w;
              answered = answered;
              is_ok = ground arith;
              decoded = ground (arith, eq_iff c.jwks_uri "");
              named = ground (arith, eq_iff c.jwks_uri "");
            }
          ]
        ]
      ]

  held-place :
      (cs : ℕ → Call) (i : ℕ) (c : Call)
      → ((j : ℕ) → HasServed http jwx lib (cs j))
      → HasServed http jwx lib c
      → (j : ℕ) → HasServed http jwx lib (place cs i c j)
  held-place cs i c h new j = elim (Bool-cases (eqb i j)) [
    | inl same ↦ rw same new
    | inr other ↦ rw other (h j)
  ]

  -- the same documents are kept, and one call moves on
  moved :
      (t : Calls W) (w : W) (i : ℕ) (c : Call)
      → AllServed http jwx lib t
      → HasServed http jwx lib c
      → AllServed http jwx lib
          (record { validator = record t.validator { world = w }; calls = place t.calls i c })
  moved t w i c h new = record { kept = h.kept; held = held-place t.calls i c h.held new }

  insert-Served :
      (url : String) (cfg : OidcConfig) (configs : Dict OidcConfig)
      → ((u : String) (c : OidcConfig) → lookup u configs ≡ some c → Served http jwx lib u c)
      → Served http jwx lib url cfg
      → (u : String) (c : OidcConfig) → lookup u (insert url cfg configs) ≡ some c
      → Served http jwx lib u c
  insert-Served url cfg configs h new u c e =
      let at = lookup-insert url u cfg configs in
      elim (Bool-cases (url == u)) [
        | inl same ↦
            let one : url ≡ u = (eq_iff url u).0 same in
            let two : cfg ≡ c = ground (arith, at, same) in rw (sym one, sym two) new
        | inr other ↦ h u c (ground (arith, at, other))
      ]

  Step-AllServed :
      (t u : Calls W) → AllServed http jwx lib t → Step http jwx lib t u → AllServed http jwx lib u
  Step-AllServed t u h (hit i url cfg at there e) =
      rw e (moved t t.validator.world i (returned url (ok cfg)) h (h.kept url cfg there))
  Step-AllServed t u h (miss i url at there e) =
      rw e (moved t t.validator.world i (missed url) h tt)
  Step-AllServed t u h (fetch i url cfg at got e) =
      rw e (moved t _ i (fetched url cfg) h (fetch_config-Served url t.validator.world cfg got))
  Step-AllServed t u h (fail i url x at got e) = rw e (moved t _ i (returned url (err x)) h tt)
  Step-AllServed t u h (remember i url cfg at e) =
      let served : Served http jwx lib url cfg = rw at at (h.held i) in
      rw e (record {
        kept = insert-Served url cfg t.validator.oidc_configs h.kept served;
        held = held-place t.calls i (returned url (ok cfg)) h.held served;
      })
  Step-AllServed t u h (elsewhere w e) = rw e (record { kept = h.kept; held = h.held })

  Step-Known :
      (t u : Calls W) (url : String)
      → Known http jwx lib url t
      → Step http jwx lib t u
      → Known http jwx lib url u
  Step-Known t u url (c, k) (hit i x cfg at there e) = (c, ground arith)
  Step-Known t u url (c, k) (miss i x at there e) = (c, ground arith)
  Step-Known t u url (c, k) (fetch i x cfg at got e) = (c, ground arith)
  Step-Known t u url (c, k) (fail i x y at got e) = (c, ground arith)
  Step-Known t u url (c, k) (remember i x cfg at e) =
      let found = lookup-insert x url cfg t.validator.oidc_configs in
      elim (Bool-cases (x == url)) [
        | inl same ↦ (cfg, ground (arith, found, same))
        | inr other ↦ (c, ground (arith, found, other))
      ]
  Step-Known t u url (c, k) (elsewhere w e) = (c, ground arith)

  Steps-AllServed :
      {t u : Calls W} → AllServed http jwx lib t → Steps http jwx lib t u → AllServed http jwx lib u
  Steps-AllServed h here = h
  Steps-AllServed h (next s e) = Step-AllServed _ _ (Steps-AllServed h s) e

  Steps-Known :
      {t u : Calls W} (url : String)
      → Known http jwx lib url t
      → Steps http jwx lib t u
      → Known http jwx lib url u
  Steps-Known url k here = k
  Steps-Known url k (next s e) = Step-Known _ _ url (Steps-Known url k s) e

  -- A document that `getOIDCConfig` returns was kept, or has just been served.
  get_oidc_config-Served :
      (url : String) (v : Validator W) (cfg : OidcConfig)
      → ((u : String) (c : OidcConfig) → lookup u v.oidc_configs ≡ some c → Served http jwx lib u c)
      → (get_oidc_config http jwx lib url v).0 ≡ ok cfg
      → Served http jwx lib url cfg
  unfolding get_oidc_config
  get_oidc_config-Served url v cfg kept e = elim (Option-cases (lookup url v.oidc_configs)) [
    | inr (c, there) ↦ kept url cfg (ground (arith, there))
    | inl nothing ↦ fetch_config-Served url v.world cfg (ground (arith, nothing))
  ]

  -- However the calls of `getOIDCConfig` interleave with one another and with the rest of the
  -- program: every document that is kept for an issuer's URL, that a call holds or that a call
  -- returned for it was answered with status 200 by that issuer's well-known path and names a key
  -- set; for a URL for which a document is kept, one is kept from then on; and a token that then
  -- passes the checks of `Validate` is checked against a document that its issuer served in that
  -- way.
  pub documents-Served :
      (w : W) (t u : Calls W)
      → Steps http jwx lib (start http jwx lib w) t
      → Steps http jwx lib t u
      → AllServed http jwx lib t
        × ((url : String) → Known http jwx lib url t → Known http jwx lib url u)
        × ((token url : String) (claims : Dict V)
              (p : Passes http jwx lib token url t.validator claims)
            → Served http jwx lib url p.asked.cfg)
  documents-Served w t u before after =
      let fresh : AllServed http jwx lib (start http jwx lib w) = record {
        kept = λ url cfg e. absurd (ground (arith, lookup-nil {V = OidcConfig} url));
        held = λ i. tt;
      } in
      let all = Steps-AllServed fresh before in
      (
        all,
        λ url k. Steps-Known url k after,
        λ token url claims p.
            get_oidc_config-Served url t.validator p.asked.cfg all.kept p.asked.discovered,
      )

  -- A call that no other one interrupts, of a goroutine that is idle, takes steps to the answer and
  -- the state that `getOIDCConfig` returns as one action.
  pub get_oidc_config-Steps :
      (t : Calls W) (i : ℕ) (url : String)
      → t.calls i ≡ idle
      → let one = get_oidc_config http jwx lib url t.validator in
        (u : Calls W) × Steps http jwx lib t u
        × (u.validator ≡ one.1)
        × (u.calls i ≡ returned url one.0)
  unfolding get_oidc_config
  get_oidc_config-Steps t i url at = elim (Option-cases (lookup url t.validator.oidc_configs)) [
    | inr (cfg, there) ↦ (_, next here (hit i url cfg at there refl), ground arith, ground arith)
    | inl nothing ↦
        let first = next here (miss i url at nothing refl) in
        elim (Result-cases (fetch_config http jwx lib url t.validator.world).0) [
          | inr (x, bad) ↦
              (_, next first (fail i url x (ground arith) bad refl), ground arith, ground arith)
          | inl (cfg, good) ↦ (
            _,
            next (next first (fetch i url cfg (ground arith) good refl))
                (remember i url cfg (ground arith) refl),
            ground arith,
            ground arith,
          )
        ]
  ]
