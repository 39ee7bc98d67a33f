-- ===== src/JwtValidator/Complete.antt =====
-- Exactly which tokens `Validate` of jwtvalidator/jwtvalidator.go accepts, call by call.
use mcp_authkit_go.Base.{String, true, Option, none, some, List, [], ◌∷◌, ◌≡◌, ◌⊎◌, ◌↔◌, inl, inr}
use mcp_authkit_go.Base.{refl, arith, eq_iff}
use mcp_authkit_go.Base.Dict.{Dict}
use mcp_authkit_go.Base.Action.{Error, wrapped, ok, err, Result-cases}
use mcp_authkit_go.Host.{Library}
use mcp_authkit_go.Http.{HttpClient}
use mcp_authkit_go.JwtValidator.{
  is_allowed, OidcConfig, Parsed, verified, too_old, refused, Validator, Jwx, get_oidc_config,
  check_algorithm, token_to_map, accept, settle, verify, validate, ensure_registered, invalid,
  expired,
}

module _ {W KeySet Token V : Type 0} (http : HttpClient W) (jwx : Jwx W KeySet Token V)
    (lib : Library) (token url : String) (v : Validator W) where
  algorithm_of :
      check_algorithm http jwx lib token ≡ ok tt
      → (alg : String) × (others : List (Option String)) × (jwx.parse_signatures token
          ≡ ok (some alg ∷ others))
        × (is_allowed alg ≡ true)
  unfolding check_algorithm
  algorithm_of e = elim (Result-cases (jwx.parse_signatures token)) [
    | inr (x, bad) ↦ absurd (ground arith)
    | inl (sigs, good) ↦ of_signatures sigs good
  ]
    where
      of_signatures :
          (sigs : List (Option String))
          → jwx.parse_signatures token ≡ ok sigs
          → (alg : String) × (others : List (Option String)) × (jwx.parse_signatures token
              ≡ ok (some alg ∷ others))
            × (is_allowed alg ≡ true)
      of_signatures [] good = absurd (ground arith)
      of_signatures (none ∷ r) good = absurd (ground arith)
      of_signatures (some a ∷ r) good = (a, r, good, ground arith)

  accept-eq-ok :
      (cfg : OidcConfig) (tok : Token) (claims : Dict V)
      → (accept http jwx lib cfg tok).1 ≡ ok claims
      → ((cfg.issuer ≡ "") ⊎ (jwx.issuer_of tok ≡ cfg.issuer))
        × (token_to_map http jwx lib tok ≡ ok claims)
  unfolding accept
  accept-eq-ok cfg tok claims e =
      let i = eq_iff cfg.issuer "" in
      let j = eq_iff (jwx.issuer_of tok) cfg.issuer in (ground (arith, i, j), ground arith)

  -- The calls that `Validate` makes up to the verifier's answer, each in the world that the one
  -- before it left: the document of the issuer, the registration of its key set, the look-up, and
  -- the verification, after the check of the algorithm.
  pub record Asks (answer : Parsed Token) : Type 0 where
    pub alg : String
    pub others : List (Option String)
    pub signed : jwx.parse_signatures token ≡ ok (some alg ∷ others)
    pub allowed : is_allowed alg ≡ true
    pub cfg : OidcConfig
    pub discovered : (get_oidc_config http jwx lib url v).0 ≡ ok cfg
    pub registered :
        (ensure_registered http jwx lib cfg.jwks_uri (get_oidc_config http jwx lib url v).1.world).0
        ≡ ok tt
    pub key_set : KeySet
    pub looked_up :
        (jwx.lookup_keys cfg.jwks_uri
          (ensure_registered http jwx lib cfg.jwks_uri
            (get_oidc_config http jwx lib url v).1.world).1).0
        ≡ ok key_set
    pub parsed :
        (jwx.parse_token key_set token
          (jwx.lookup_keys cfg.jwks_uri
            (ensure_registered http jwx lib cfg.jwks_uri
              (get_oidc_config http jwx lib url v).1.world).1).1).0
        ≡ answer

  -- The verifier accepted the token, and its issuer and claims are in order.
  pub record Passes (claims : Dict V) : Type 0 where
    pub tok : Token
    pub asked : Asks (verified tok)
    pub issued : (asked.cfg.issuer ≡ "") ⊎ (jwx.issuer_of tok ≡ asked.cfg.issuer)
    pub read : token_to_map http jwx lib tok ≡ ok claims

  -- What `Validate` makes of the verifier's answer.
  Asks-settle :
      (answer : Parsed Token) (a : Asks answer)
      → (validate http jwx lib token url v).0 ≡ settle http jwx lib a.cfg answer
  unfolding validate check_algorithm verify
  Asks-settle answer a =
      ground (arith, a.signed, a.allowed, a.discovered, a.registered, a.looked_up, a.parsed)

  Passes-accepted :
      (claims : Dict V) → Passes claims → (validate http jwx lib token url v).0.1 ≡ ok claims
  unfolding accept
  Passes-accepted claims a =
      let at = Asks-settle (verified a.tok) a.asked in
      let i = eq_iff a.asked.cfg.issuer "" in
      let j = eq_iff (jwx.issuer_of a.tok) a.asked.cfg.issuer in
      elim a.issued [
        | inl unnamed ↦ ground (arith, at, i, unnamed, a.read)
        | inr same ↦ ground (arith, at, j, same, a.read)
      ]

  -- The verifier was asked, or the token is refused as invalid.
  validate-cases :
      ((answer : Parsed Token) × Asks answer)
      ⊎ ((e : Error) × ((validate http jwx lib token url v).0 ≡ (invalid, err e)))
  unfolding validate verify
  validate-cases =
      let found = get_oidc_config http jwx lib url v in
      elim (Result-cases (check_algorithm http jwx lib token)) [
        | inr (x, bad) ↦ inr (x, ground arith)
        | inl (_, good) ↦ elim (Result-cases found.0) [
          | inr (x, bad) ↦ inr (x, ground arith)
          | inl (cfg, is) ↦
              let listed = ensure_registered http jwx lib cfg.jwks_uri found.1.world in
              elim (Result-cases listed.0) [
                | inr (x, bad) ↦ inr (wrapped "jwtvalidator: registering JWKS" x, ground arith)
                | inl (_, done) ↦
                    let keys = jwx.lookup_keys cfg.jwks_uri listed.1 in
                    elim (Result-cases keys.0) [
                      | inr (x, bad) ↦ inr (wrapped "jwtvalidator: fetching JWKS" x, ground arith)
                      | inl (key_set, got) ↦
                          let (alg, others, signed, allowed) = algorithm_of good in
                          inl (
                            _,
                            record {
                              alg = alg;
                              others = others;
                              signed = signed;
                              allowed = allowed;
                              cfg = cfg;
                              discovered = is;
                              registered = done;
                              key_set = key_set;
                              looked_up = got;
                              parsed = refl;
                            },
                          )
                    ]
              ]
        ]
      ]

  accepted-Passes :
      (claims : Dict V) → (validate http jwx lib token url v).0.1 ≡ ok claims → Passes claims
  accepted-Passes claims e = elim validate-cases [
    | inr (x, bad) ↦ absurd (ground arith)
    | inl (answer, a) ↦ of_answer answer a
  ]
    where
      of_answer : (answer : Parsed Token) → Asks answer → Passes claims
      of_answer (too_old x) a = absurd (ground (arith, Asks-settle (too_old x) a))
      of_answer (refused x) a = absurd (ground (arith, Asks-settle (refused x) a))
      of_answer (verified tok) a =
          let (issued, read) =
            accept-eq-ok a.cfg tok claims (ground (arith, Asks-settle (verified tok) a)) in
          record { tok = tok; asked = a; issued = issued; read = read }

  -- A token is accepted with some claims exactly if its first signature's algorithm is on the list,
  -- the issuer's discovery document is found, its key set is registered and looked up, the verifier
  -- accepts the token under those keys, the issuer of the token is the document's where that names
  -- one, and those are the claims read from the verified token.
  pub validate_iff :
      (claims : Dict V) → ((validate http jwx lib token url v).0.1 ≡ ok claims) ↔ Passes claims
  validate_iff claims = (accepted-Passes claims, Passes-accepted claims)

  expired-Asks : (validate http jwx lib token url v).0.0 ≡ expired → (e : Error) × Asks (too_old e)
  unfolding accept
  expired-Asks late = elim validate-cases [
    | inr (x, bad) ↦ absurd (ground arith)
    | inl (answer, a) ↦ of_answer answer a
  ]
    where
      of_answer : (answer : Parsed Token) → Asks answer → (e : Error) × Asks (too_old e)
      of_answer (too_old x) a = (x, a)
      of_answer (refused x) a = absurd (ground (arith, Asks-settle (refused x) a))
      of_answer (verified tok) a = absurd (ground (arith, Asks-settle (verified tok) a))

  -- The reason is "expired" exactly if the checks before the verification pass and the verifier
  -- finds the token too old, and then its error is returned. Every other rejection is "invalid",
  -- one whose issuer is wrong or whose claims cannot be read among them.
  pub validate_expired_iff :
      (((validate http jwx lib token url v).0.0 ≡ expired) ↔ ((e : Error) × Asks (too_old e)))
      × ((e : Error) → Asks (too_old e) → (validate http jwx lib token url v).0 ≡ (expired, err e))
  validate_expired_iff = (
    (expired-Asks, λ (e, a). ground (arith, Asks-settle (too_old e) a)),
    λ e a. Asks-settle (too_old e) a,
  )
