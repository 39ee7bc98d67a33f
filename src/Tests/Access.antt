-- ===== src/Tests/Access.antt =====
-- The validator and the middleware at concrete inputs: a network with one issuer, and tokens that
-- are verified by their text.
use mcp_authkit_go.Base.{◌≢◌, String, false, some, [], ◌∷◌, ◌≡◌, ◌↔◌, refl, inr}
use mcp_authkit_go.Base.{◌==◌, ◌<>◌, if◌then◌else◌}
use mcp_authkit_go.Base.Int.{ℤ}
use mcp_authkit_go.Base.Dict.{Dict, lookup, insert}
use mcp_authkit_go.Base.Action.{Error, message, ok, err}
use mcp_authkit_go.Http.{HttpClient}
use mcp_authkit_go.Value.{Value, str}
use mcp_authkit_go.JwtValidator.{
  OidcConfig, verified, too_old, refused, expired, Jwx, Validator, new_validator, validate,
  is_allowed, get_oidc_config, fetch_config, read_config, ensure_registered, token_to_map,
  read_claims,
}
use mcp_authkit_go.JwtValidator.Complete.{Asks, Passes, validate_iff, validate_expired_iff}
use mcp_authkit_go.Middleware.{
  is_open_path, Request, Handler, Options, is_open_path, user_from_claims, with_user,
}
use mcp_authkit_go.Middleware.Access.{protect, protect_guard}
use mcp_authkit_go.Tests.Toys.{toy_library}
use mcp_authkit_go.Tests.World.{World, start_world, nobody, request}

-- It answers every request with 200.
abbrev pub network : HttpClient World
network = record {
  new_request = λ m u b. ok (record { method = m; url = u; headers = []; content = b });
  send = λ r w. (ok (record { status = 200; body = "body" }), w);
}

abbrev pub issuer : OidcConfig
issuer = record { issuer = "https://idp"; jwks_uri = "https://idp/keys" }

-- A token is its algorithm; "RS256" is also one that is verified.
abbrev pub jwx : Jwx World (Unit {0}) String (Value ℤ)
jwx = record {
  decode_config = λ b. ok issuer;
  is_registered = λ u w. (false, w);
  register = λ u w. (ok tt, w);
  lookup_keys = λ u w. (ok tt, w);
  parse_signatures = λ t. ok (some t ∷ []);
  parse_token = λ k t w. (if t == "RS256" then verified t else refused (message "bad"), w);
  issuer_of = λ t. "https://idp";
  keys_of = λ t. "sub" ∷ [];
  claim = λ t k. ok (str "u");
}

abbrev pub fresh : Validator World
fresh = new_validator start_world

abbrev claims_u : Dict (Value ℤ)
claims_u = ("sub", str "u") ∷ []

validate_expired_iff_example :
    (((validate network jwx toy_library "RS256" "https://idp" fresh).0.0 ≡ expired)
      ↔ ((e : Error) × Asks network jwx toy_library "RS256" "https://idp" fresh (too_old e)))
    × ((e : Error)
        → Asks network jwx toy_library "RS256" "https://idp" fresh (too_old e)
        → (validate network jwx toy_library "RS256" "https://idp" fresh).0 ≡ (expired, err e))
validate_expired_iff_example =
    validate_expired_iff network jwx toy_library "RS256" "https://idp" fresh

abbrev pub options : Options
options = record {
  issuer_url = "https://idp";
  server_base_url = "https://here";
  open_paths = "/register" ∷ [];
}

abbrev pub call : Request (Value ℤ)
call = record (request (λ k. "") (λ k. "")) {
  path = "/mcp";
  header = λ k. if k == "Authorization" then "Bearer RS256" else "";
}

abbrev greet : Handler (Validator World) (Value ℤ) String
greet r v = (record { status = 200; headers = []; body = "hello" }, v)

-- a token that passes
fresh-Passes : Passes network jwx toy_library "RS256" "https://idp" fresh claims_u
unfolding is_allowed get_oidc_config lookup fetch_config read_config ensure_registered token_to_map
    read_claims insert
fresh-Passes = record {
  tok = "RS256";
  asked = record {
    alg = "RS256";
    others = [];
    signed = refl;
    allowed = refl;
    cfg = issuer;
    discovered = refl;
    registered = refl;
    key_set = tt;
    looked_up = refl;
    parsed = refl;
  };
  issued = inr refl;
  read = refl;
}

validate_iff_example :
    ((validate network jwx toy_library "RS256" "https://idp" fresh).0.1 ≡ ok claims_u)
    ↔ Passes network jwx toy_library "RS256" "https://idp" fresh claims_u
validate_iff_example = validate_iff network jwx toy_library "RS256" "https://idp" fresh claims_u

protect_guard_example :
    ((token : String) (claims : Dict (Value ℤ))
      → "Bearer RS256" ≡ "Bearer " <> token
      → token ≢ ""
      → Passes network jwx toy_library token "https://idp" fresh claims
      → protect network jwx toy_library options greet call fresh
        ≡ greet
            (record call { context = with_user nobody (user_from_claims claims) })
            (validate network jwx toy_library token "https://idp" fresh).1)
    × (((token : String) (claims : Dict (Value ℤ))
          → "Bearer RS256" ≡ "Bearer " <> token
          → token ≢ ""
          → ¬ Passes network jwx toy_library token "https://idp" fresh claims)
        → ((protect network jwx toy_library options greet call fresh).0.status ≡ 401)
          × ((other : Handler (Validator World) (Value ℤ) String)
              → protect network jwx toy_library options greet call fresh
                ≡ protect network jwx toy_library options other call fresh))
unfolding is_open_path
protect_guard_example =
    protect_guard network jwx toy_library options greet call fresh (λ e. cc) refl
