-- ===== src/Server.antt =====
-- A server over the two legs, put together as README.md does it: the middleware in front of the MCP
-- SDK's handler, and tools behind `RequireToken` and `RequireCredentials`.
pub mod Handed
pub mod Legs
pub mod Runs
use mcp_authkit_go.Base.{String, Bool}
use mcp_authkit_go.Base.Dict.{Dict}
use mcp_authkit_go.Base.Action.{Action, ElicitParams, Result}
use mcp_authkit_go.Host.{Host, Library}
use mcp_authkit_go.Http.{HttpClient}
use mcp_authkit_go.Value.{Float64, Value}
use mcp_authkit_go.JwtValidator.{FailReason, OidcConfig, Validator, Jwx, validate}
use mcp_authkit_go.Middleware.{Context, Request, Handler, Options, new}
use mcp_authkit_go.OauthProvider
use mcp_authkit_go.OauthProvider.Gate
use mcp_authkit_go.OauthProvider.Gate.{ToolResult, Running, require_token}
use mcp_authkit_go.CredentialsProvider
use mcp_authkit_go.CredentialsProvider.Gate.{require_credentials}

-- What the MCP SDK keeps between requests, the state of the validator and that of a provider, over
-- one world.
pub record Server (K W Session : Type 0) : Type 0 where
  pub sdk : K
  pub oidc_configs : Dict OidcConfig
  pub sessions : Dict Session
  pub world : W

module _ {K W Session : Type 0} where
  abbrev pub validator_of : Server K W Session → Validator W
  validator_of s = record { oidc_configs = s.oidc_configs; world = s.world }

  abbrev pub on_validator : {A : Type 0} → Action (Validator W) A → Action (Server K W Session) A
  on_validator m s =
      let (a, v) = m (validator_of s) in
      (a, record s { oidc_configs = v.oidc_configs; world = v.world })

-- A tool as the SDK runs it, for a session and in a context.
abbrev pub Mounted : Type 0 → Type 0 → Type 0 → Type 0
Mounted W N Session = Session → Context (Value N) → Action (Running W Session) (Result ToolResult)

module _ {K W KeySet Token N Session : Type 0} (http : HttpClient W)
    (jwx : Jwx W KeySet Token (Value N)) (lib : Library) (opts : Options) where
  -- A handler behind the middleware.
  abbrev pub guarded :
      Handler (Server K W Session) (Value N) String → Handler (Server K W Session) (Value N) String
  guarded = new lib (λ token url. on_validator (validate http jwx lib token url)) opts

  -- The SDK's handler of a server with one tool, behind the middleware.
  abbrev pub serve :
      (Mounted W N Session → Handler (Server K W Session) (Value N) String)
      → Mounted W N Session
      → Handler (Server K W Session) (Value N) String
  serve mcp tool = guarded (mcp tool)

module _ {W N Session : Type 0} (host : Host W) (lib : Library) (float : Float64 N)
    (elicit : Session → ElicitParams → Action W (Result String)) (fail_fast : Bool) where
  -- a tool behind `RequireToken`
  abbrev pub with_oauth :
      (p : OauthProvider.Provider W N) → Gate.Tool host lib float p elicit → Mounted W N Session
  with_oauth p next session ctx = require_token host lib float p elicit fail_fast session next ctx

  -- a tool behind `RequireCredentials`
  abbrev pub with_form :
      (p : CredentialsProvider.Provider W N)
      → CredentialsProvider.Gate.Tool host lib float p elicit
      → Mounted W N Session
  with_form p next session ctx =
      require_credentials host lib float p elicit fail_fast session next ctx
