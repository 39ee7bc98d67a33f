-- ===== src/JwtValidator/Concurrent.antt =====
-- `getOIDCConfig` of jwtvalidator/jwtvalidator.go as steps of many goroutines: the mutex is held
-- for the lookup and for the write, and not while the document is fetched.
pub mod Provenance
use mcp_authkit_go.Base.{
  ℕ, String, Option, none, some, [], ◌≡◌, ◌≢◌, ◌∙◌, sym, ap, arith, eq_iff, ◌<>◌, inl, inr,
}
use mcp_authkit_go.Base.{eqb, Bool-cases, ◌==◌, if◌then◌else◌}
use mcp_authkit_go.Base.Dict.{Dict, lookup, insert, lookup-insert}
use mcp_authkit_go.Base.Action.{Error, Result, ok, err, Result-cases}
use mcp_authkit_go.Host.{Library}
use mcp_authkit_go.Http.{ClientRequest, ClientResponse, HttpClient}
use mcp_authkit_go.JwtValidator.{OidcConfig, Validator, new_validator, Jwx, fetch_config}

-- Where a call of `getOIDCConfig` stands.
pub data Call : Type 0 where
  idle : Call
  -- it found nothing, and has let go of the mutex
  missed : String → Call
  -- it has a document, and has not locked the mutex again
  fetched : String → OidcConfig → Call
  returned : String → Result OidcConfig → Call

pub record Calls (W : Type 0) : Type 0 where
  pub validator : Validator W
  pub calls : ℕ → Call

abbrev pub place : (ℕ → Call) → ℕ → Call → ℕ → Call
place cs i c j = if eqb i j then c else cs j

module _ {W KeySet Token V : Type 0} (http : HttpClient W) (jwx : Jwx W KeySet Token V)
    (lib : Library) where
  -- One step of one goroutine. `u` is the state after it.
  pub data Step (t : Calls W) (u : Calls W) : Type 0 where
    hit :
        (i : ℕ) (url : String) (cfg : OidcConfig)
        → t.calls i ≡ idle
        → lookup url t.validator.oidc_configs ≡ some cfg
        → u ≡ record t { calls = place t.calls i (returned url (ok cfg)) }
        → Step t u
    miss :
        (i : ℕ) (url : String)
        → t.calls i ≡ idle
        → lookup url t.validator.oidc_configs ≡ none
        → u ≡ record t { calls = place t.calls i (missed url) }
        → Step t u
    fetch :
        (i : ℕ) (url : String) (cfg : OidcConfig)
        → t.calls i ≡ missed url
        → (fetch_config http jwx lib url t.validator.world).0 ≡ ok cfg
        → u ≡ record {
          validator = record t.validator {
            world = (fetch_config http jwx lib url t.validator.world).1;
          };
          calls = place t.calls i (fetched url cfg);
        }
        → Step t u
    fail :
        (i : ℕ) (url : String) (e : Error)
        → t.calls i ≡ missed url
        → (fetch_config http jwx lib url t.validator.world).0 ≡ err e
        → u ≡ record {
          validator = record t.validator {
            world = (fetch_config http jwx lib url t.validator.world).1;
          };
          calls = place t.calls i (returned url (err e));
        }
        → Step t u
    remember :
        (i : ℕ) (url : String) (cfg : OidcConfig)
        → t.calls i ≡ fetched url cfg
        → u ≡ record {
          validator = record t.validator { oidc_configs = insert url cfg t.validator.oidc_configs };
          calls = place t.calls i (returned url (ok cfg));
        }
        → Step t u
    -- the rest of the program, and of the world
    elsewhere : (w : W) → u ≡ record t { validator = record t.validator { world = w } } → Step t u

  pub data Steps : Calls W → Calls W → Type 0 where
    here : {t : Calls W} → Steps t t
    next : {t u v : Calls W} → Steps t u → Step u v → Steps t v

  -- The issuer of this URL answered with this document, and it names a key set.
  pub record Served (url : String) (cfg : OidcConfig) : Type 0 where
    pub req : ClientRequest
    pub made : http.new_request "GET" (url <> "/.well-known/openid-configuration") "" ≡ ok req
    pub resp : ClientResponse
    pub before : W
    pub answered : (http.send req before).0 ≡ ok resp
    pub is_ok : resp.status ≡ 200
    pub decoded : jwx.decode_config resp.body ≡ ok cfg
    pub named : cfg.jwks_uri ≢ ""

  -- A document that a call holds or has returned is one that its issuer served.
  abbrev pub HasServed : Call → Type 0
  HasServed (fetched url cfg) = Served url cfg
  HasServed (returned url (ok cfg)) = Served url cfg
  HasServed _ = Unit

  -- So is every document that is kept.
  pub record AllServed (t : Calls W) : Type 0 where
    pub kept :
        (url : String) (cfg : OidcConfig)
        → lookup url t.validator.oidc_configs ≡ some cfg
        → Served url cfg
    pub held : (i : ℕ) → HasServed (t.calls i)

  -- a document is kept for the URL
  abbrev pub Known : String → Calls W → Type 0
  Known url t = (cfg : OidcConfig) × (lookup url t.validator.oidc_configs ≡ some cfg)

  abbrev pub start : W → Calls W
  start w = record { validator = new_validator w; calls = λ _. idle }
