-- ===== src/JwtValidator.antt =====
-- jwtvalidator/jwtvalidator.go: discovery, the JWKS cache and the checks of a bearer token. The
-- HTTP client, httprc, jwx's cache, its parsers and its verifier are parameters.
pub mod Discovery
pub mod Verdict
pub mod Complete
pub mod Setup
pub mod Concurrent
use mcp_authkit_go.Base.{
  ℕ, String, Bool, true, false, not, ◌||◌, ◌&&◌, Option, none, some, List, [], ◌∷◌,
}
use mcp_authkit_go.Base.{◌==◌, ◌<>◌, eqb, if◌then◌else◌}
use mcp_authkit_go.Base.Int.{pos}
use mcp_authkit_go.Base.Dict.{Dict, lookup, insert}
use mcp_authkit_go.Base.Action.{Action, Error, message, wrapped, Result, ok, err, pure, ◌>>=◌, ◌>>◌}
use mcp_authkit_go.Host.{Library}
use mcp_authkit_go.Http.{ClientRequest, ClientResponse, HttpClient}

pub data FailReason : Type 0 where
  invalid expired : FailReason

abbrev contains : List String → String → Bool
contains [] a = false
contains (x ∷ xs) a = x == a || contains xs a

abbrev pub allowed_algorithms : List String
allowed_algorithms =
    "RS256" ∷ "RS384" ∷ "RS512" ∷ "PS256" ∷ "PS384" ∷ "PS512" ∷ "ES256" ∷ "ES384" ∷ "ES512"
    ∷ "EdDSA" ∷ []

-- allowedAlgorithms[alg]
unfoldable pub is_allowed : String → Bool
is_allowed alg = contains allowed_algorithms alg

pub record OidcConfig : Type 0 where
  pub issuer : String
  pub jwks_uri : String

-- jwt.Parse with a key set: `expired` is an error for which errors.Is(err,
-- jwt.TokenExpiredError()).
pub data Parsed (Token : Type 0) : Type 0 where
  verified : Token → Parsed Token
  too_old : Error → Parsed Token
  refused : Error → Parsed Token

-- jwx and encoding/json, for a world `W` that holds the cache and the clock
pub record Jwx (W KeySet Token V : Type 0) : Type 0 where
  pub decode_config : String → Result OidcConfig
  pub is_registered : String → Action W Bool
  pub register : String → Action W (Result (Unit {0}))
  pub lookup_keys : String → Action W (Result KeySet)
  -- jws.Parse: the alg of the protected header of each signature
  pub parse_signatures : String → Result (List (Option String))
  pub parse_token : KeySet → String → Action W (Parsed Token)
  -- parsed.Issuer(), "" where the token has none
  pub issuer_of : Token → String
  pub keys_of : Token → List String
  pub claim : Token → String → Result V

-- The state of a `Validator`, with the world.
pub record Validator (W : Type 0) : Type 0 where
  pub oidc_configs : Dict OidcConfig
  pub world : W

abbrev pub outside : {W A : Type 0} → Action W A → Action (Validator W) A
outside m v = ((m v.world).0, record v { world = (m v.world).1 })

-- `New` has fetched no discovery document.
abbrev pub new_validator : {W : Type 0} → W → Validator W
new_validator w = record { oidc_configs = []; world = w }

module _ {W KeySet Token V : Type 0} (http : HttpClient W) (jwx : Jwx W KeySet Token V)
    (lib : Library) where
  -- what `getOIDCConfig` does with the answer
  unfoldable pub read_config : ClientResponse → Result OidcConfig
  read_config resp =
      if not (eqb resp.status 200)
      then err (
          message
            ("jwtvalidator: OIDC discovery returned status " <> lib.decimal (pos resp.status)))
      else elim (jwx.decode_config resp.body) [
        | err e ↦ err (wrapped "jwtvalidator: decoding OIDC config" e)
        | ok cfg ↦
            if cfg.jwks_uri == ""
            then err (message "jwtvalidator: OIDC config has no jwks_uri")
            else ok cfg
      ]

  -- `getOIDCConfig` past its cache
  unfoldable pub fetch_config : String → Action W (Result OidcConfig)
  unfolding read_config
  fetch_config issuer_url =
      elim (http.new_request "GET" (issuer_url <> "/.well-known/openid-configuration") "") [
        | err e ↦ pure (err e)
        | ok req ↦ do
          answer ← http.send req
          pure (elim answer [
            | err e ↦ err (wrapped "jwtvalidator: fetching OIDC config" e)
            | ok resp ↦ read_config resp
          ])
      ]

  abbrev remember : String → Result OidcConfig → Validator W → Validator W
  remember issuer_url (err e) v = v
  remember issuer_url (ok cfg) v = record v { oidc_configs = insert issuer_url cfg v.oidc_configs }

  unfoldable pub get_oidc_config : String → Action (Validator W) (Result OidcConfig)
  get_oidc_config issuer_url v = elim (lookup issuer_url v.oidc_configs) [
    | some cfg ↦ (ok cfg, v)
    | none ↦
        let (cfg, v') = outside (fetch_config issuer_url) v in (cfg, remember issuer_url cfg v')
  ]

  unfoldable pub ensure_registered : String → Action W (Result (Unit {0}))
  ensure_registered jwks_uri = do
    known ← jwx.is_registered jwks_uri
    if known then pure (ok tt) else jwx.register jwks_uri

  unfoldable pub check_algorithm : String → Result (Unit {0})
  check_algorithm token = elim (jwx.parse_signatures token) [
    | err e ↦ err (wrapped "jwtvalidator: parsing token header" e)
    | ok [] ↦ err (message "jwtvalidator: token has no signatures")
    | ok (none ∷ _) ↦ err (message "jwtvalidator: token header has no alg")
    | ok (some alg ∷ _) ↦
        if not (is_allowed alg)
        then err (message ("jwtvalidator: disallowed signing algorithm " <> lib.quote alg))
        else ok tt
  ]

  -- the loop of `tokenToMap`
  unfoldable pub read_claims : Token → List String → Dict V → Result (Dict V)
  read_claims tok [] claims = ok claims
  read_claims tok (key ∷ keys) claims = elim (jwx.claim tok key) [
    | err e ↦ err (wrapped ("jwtvalidator: reading claim " <> lib.quote key) e)
    | ok v ↦ read_claims tok keys (insert key v claims)
  ]

  unfoldable pub token_to_map : Token → Result (Dict V)
  unfolding read_claims
  token_to_map tok = read_claims tok (jwx.keys_of tok) []

  -- `Validate` from the verified token on
  unfoldable pub accept : OidcConfig → Token → FailReason × Result (Dict V)
  unfolding token_to_map
  accept cfg tok =
      if not (cfg.issuer == "") && not (jwx.issuer_of tok == cfg.issuer)
      then (
        invalid,
        err (
            message (
              "jwtvalidator: issuer mismatch: token has "
              <> lib.quote (jwx.issuer_of tok)
              <> ", expected "
              <> lib.quote cfg.issuer)),
      )
      else (invalid, token_to_map tok)

  -- `Validate` from the verifier's answer on
  abbrev pub settle : OidcConfig → Parsed Token → FailReason × Result (Dict V)
  settle cfg (too_old e) = (expired, err e)
  settle cfg (refused e) = (invalid, err (wrapped "jwtvalidator: verifying token" e))
  settle cfg (verified tok) = accept cfg tok

  -- `Validate` from the discovery document on
  unfoldable pub verify : String → OidcConfig → Action W (FailReason × Result (Dict V))
  verify token cfg = do
    registered ← ensure_registered cfg.jwks_uri
    elim registered [
      | err e ↦ pure (invalid, err (wrapped "jwtvalidator: registering JWKS" e))
      | ok _ ↦ do
        found ← jwx.lookup_keys cfg.jwks_uri
        elim found [
          | err e ↦ pure (invalid, err (wrapped "jwtvalidator: fetching JWKS" e))
          | ok key_set ↦ do parsed ← jwx.parse_token key_set token; pure (settle cfg parsed)
        ]
    ]

  -- The reason counts only beside an error.
  unfoldable pub validate : String → String → Action (Validator W) (FailReason × Result (Dict V))
  validate token issuer_url = elim (check_algorithm token) [
    | err e ↦ pure (invalid, err e)
    | ok _ ↦ do
      cfg ← get_oidc_config issuer_url
      elim cfg [ err e ↦ pure (invalid, err e) | ok c ↦ outside (verify token c) ]
  ]
