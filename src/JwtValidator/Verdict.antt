-- ===== src/JwtValidator/Verdict.antt =====
-- What `Validate` of jwtvalidator/jwtvalidator.go accepts, and what it rejects.
use mcp_authkit_go.Base.{String, true, false, Option, some, List, ◌∷◌, ◌≡◌, ◌⊎◌}
use mcp_authkit_go.Base.{arith, ◌<>◌}
use mcp_authkit_go.Base.Dict.{Dict}
use mcp_authkit_go.Base.Action.{Error, message, ok, err}
use mcp_authkit_go.Host.{Library}
use mcp_authkit_go.Http.{HttpClient}
use mcp_authkit_go.JwtValidator.{
  invalid, expired, is_allowed, OidcConfig, Parsed, verified, too_old, Validator, Jwx,
  get_oidc_config, check_algorithm, token_to_map, validate,
}
use mcp_authkit_go.JwtValidator.Complete.{validate_iff, validate_expired_iff}

module _ {W KeySet Token V : Type 0} (http : HttpClient W) (jwx : Jwx W KeySet Token V)
    (lib : Library) (token url : String) (v : Validator W) where
  -- A key set that was looked up under the URI of the issuer's document, and the verifier's answer.
  pub record Checked (answer : Parsed Token) : Type 0 where
    pub cfg : OidcConfig
    pub discovered : (get_oidc_config http jwx lib url v).0 ≡ ok cfg
    pub key_set : KeySet
    pub before_lookup : W
    pub looked_up : (jwx.lookup_keys cfg.jwks_uri before_lookup).0 ≡ ok key_set
    pub before_parse : W
    pub parsed : (jwx.parse_token key_set token before_parse).0 ≡ answer

  -- Why a token was accepted with these claims.
  pub record IsAccepted (claims : Dict V) : Type 0 where
    pub alg : String
    pub others : List (Option String)
    pub signed : jwx.parse_signatures token ≡ ok (some alg ∷ others)
    pub allowed : is_allowed alg ≡ true
    pub tok : Token
    pub checked : Checked (verified tok)
    pub issued : (checked.cfg.issuer ≡ "") ⊎ (jwx.issuer_of tok ≡ checked.cfg.issuer)
    pub read : token_to_map http jwx lib tok ≡ ok claims

  -- A token is accepted only if its first signature's algorithm is on the list, the verifier
  -- accepted it under a key set looked up at the URI of the issuer's discovery document, its issuer
  -- is the document's where that names one, and the claims returned are those read from the
  -- verified token.
  pub validate_sound :
      (claims : Dict V) → (validate http jwx lib token url v).0.1 ≡ ok claims → IsAccepted claims
  validate_sound claims e =
      let a = (validate_iff http jwx lib token url v claims).0 e in
      record {
        alg = a.asked.alg;
        others = a.asked.others;
        signed = a.asked.signed;
        allowed = a.asked.allowed;
        tok = a.tok;
        checked = record {
          cfg = a.asked.cfg;
          discovered = a.asked.discovered;
          key_set = a.asked.key_set;
          before_lookup = _;
          looked_up = a.asked.looked_up;
          before_parse = _;
          parsed = a.asked.parsed;
        };
        issued = a.issued;
        read = a.read;
      }

  -- The reason is "expired" only if the verifier, under such a key set, found the token too old.
  pub validate_expired :
      (validate http jwx lib token url v).0.0 ≡ expired → (e : Error) × Checked (too_old e)
  validate_expired late =
      let (e, a) = (validate_expired_iff http jwx lib token url v).0.0 late in
      (
        e,
        record {
          cfg = a.cfg;
          discovered = a.discovered;
          key_set = a.key_set;
          before_lookup = _;
          looked_up = a.looked_up;
          before_parse = _;
          parsed = a.parsed;
        },
      )

  -- A token whose first signature has an algorithm off the list, such as "none", is rejected as
  -- invalid, and nothing is fetched: the validator and the world are as before.
  pub validate_disallowed :
      (alg : String) (others : List (Option String))
      → jwx.parse_signatures token ≡ ok (some alg ∷ others)
      → is_allowed alg ≡ false
      → (e : Error) × (validate http jwx lib token url v ≡ ((invalid, err e), v))
  unfolding validate check_algorithm
  validate_disallowed alg others e off =
      (message ("jwtvalidator: disallowed signing algorithm " <> lib.quote alg), ground arith)
