-- ===== src/Server/Legs.antt =====
-- What a tool behind both legs of the program is called with, in a run of a server.
use mcp_authkit_go.Base.{String, Bool, none, List, ◌∷◌, ◌≡◌, ◌⊎◌, ap, inl, inr}
use mcp_authkit_go.Base.{arith}
use mcp_authkit_go.Base.Dict.{Dict}
use mcp_authkit_go.Base.Action.{Action, ElicitParams, Result}
use mcp_authkit_go.Host.{Host, Library}
use mcp_authkit_go.Http.{HttpClient}
use mcp_authkit_go.Value.{Float64, Value}
use mcp_authkit_go.JwtValidator.{Jwx}
use mcp_authkit_go.Middleware.{
  Context, Request, Handler, Options, user_from_context, with_user, user_from_claims,
}
use mcp_authkit_go.OauthProvider
use mcp_authkit_go.OauthProvider.Gate
use mcp_authkit_go.OauthProvider.Gate.{Running, with_token}
use mcp_authkit_go.OauthProvider.Gate.Laws.{Obtained, require_token_guards}
use mcp_authkit_go.CredentialsProvider
use mcp_authkit_go.CredentialsProvider.Gate.{with_credentials}
use mcp_authkit_go.CredentialsProvider.Gate.Laws.{Kept, require_credentials_guards}
use mcp_authkit_go.Server.{Server, validator_of, Mounted, serve, with_oauth, with_form}
use mcp_authkit_go.Server.Handed.{Bearer, context_of}
use mcp_authkit_go.Server.Runs.{Came, Run, serve-cong}

module _ {K W KeySet Token N Session : Type 0} (http : HttpClient W)
    (jwx : Jwx W KeySet Token (Value N)) (lib : Library) (opts : Options)
    (mcp : Mounted W N Session → Handler (Server K W Session) (Value N) String)
    (Held : K → Context (Value N) → Type 0)
    (in_contexts : (a b : Mounted W N Session) (r : Request (Value N)) (s : Server K W Session)
      → ((session : Session) (ctx : Context (Value N)) (t : Running W Session)
          → (ctx ≡ r.context) ⊎ (Held s.sdk ctx ⊎ (ctx.user ≡ none))
          → a session ctx t ≡ b session ctx t)
      → mcp a r s ≡ mcp b r s)
    (host : Host W) (float : Float64 N) (elicit : Session → ElicitParams → Action W (Result String))
    (fail_fast : Bool) where
  -- Both legs, for a tool behind `RequireToken`, in a run of a server that starts with an SDK that
  -- holds no context: the tool is only called for the user of claims with which the validator
  -- accepted the token in the Authorization header of a request of the run, this one or an earlier
  -- one, and with an OAuth token that is not empty and that `getOrRefreshToken` returns for the
  -- subject of that user: two tools that agree on such calls are served with the same answer and
  -- state. Requests come in with no user in their context, and others may come in before one is
  -- handled. The SDK holds contexts that the middleware handed to it, or that have no user, and
  -- runs the tool for a request in the context that the request came to it with, in one that it
  -- held then, or in one that has no user.
  pub with_oauth_guards :
      (p : OauthProvider.Provider W N) (next other : Gate.Tool host lib float p elicit)
      {h : List (Request (Value N) × Server K W Session)} {s : Server K W Session}
      (r : Request (Value N))
      → Run http jwx lib opts Held h s
      → r.context.user ≡ none
      → ((q : Request (Value N)) (u : Server K W Session) (claims : Dict (Value N)) (token : String)
            (t : Running W Session)
          → Came http jwx lib opts Held ((r, s) ∷ h) q u
          → Bearer http jwx lib opts q (validator_of u) claims
          → Obtained host lib float p elicit (user_from_claims claims).sub token
          → next (with_token (context_of http jwx lib opts q claims) token) t
            ≡ other (with_token (context_of http jwx lib opts q claims) token) t)
      → serve http jwx lib opts mcp (with_oauth host lib float elicit fail_fast p next) r s
        ≡ serve http jwx lib opts mcp (with_oauth host lib float elicit fail_fast p other) r s
  unfolding user_from_context with_user
  with_oauth_guards p next other r run outside agree =
      serve-cong http jwx lib opts Held mcp in_contexts _ _ r run outside (λ ctx session t from.
        require_token_guards host lib float p elicit fail_fast session next other ctx t
          (λ user token t' is got. elim from [
            | inl nobody ↦ absurd (cc (is, nobody))
            | inr v ↦
                let own : user ≡ user_from_claims v.claims =
                  ground (arith, is, ap (λ c. c.user) v.is) in
                rw v.is (agree v.request v.state v.claims token t' v.came v.bearer (rw own at got))
          ]))

  -- And for a tool behind `RequireCredentials`, in the same runs: the tool is only called for the
  -- user of such claims, and with credentials that the store returns for the subject of that user.
  pub with_form_guards :
      (p : CredentialsProvider.Provider W N)
      (next other : CredentialsProvider.Gate.Tool host lib float p elicit)
      {h : List (Request (Value N) × Server K W Session)} {s : Server K W Session}
      (r : Request (Value N))
      → Run http jwx lib opts Held h s
      → r.context.user ≡ none
      → ((q : Request (Value N)) (u : Server K W Session) (claims creds : Dict (Value N))
            (t : Running W Session)
          → Came http jwx lib opts Held ((r, s) ∷ h) q u
          → Bearer http jwx lib opts q (validator_of u) claims
          → Kept host lib float p elicit (user_from_claims claims).sub creds
          → next (with_credentials (context_of http jwx lib opts q claims) creds) t
            ≡ other (with_credentials (context_of http jwx lib opts q claims) creds) t)
      → serve http jwx lib opts mcp (with_form host lib float elicit fail_fast p next) r s
        ≡ serve http jwx lib opts mcp (with_form host lib float elicit fail_fast p other) r s
  unfolding user_from_context with_user
  with_form_guards p next other r run outside agree =
      serve-cong http jwx lib opts Held mcp in_contexts _ _ r run outside (λ ctx session t from.
        require_credentials_guards host lib float p elicit fail_fast session next other ctx t
          (λ user creds t' is got. elim from [
            | inl nobody ↦ absurd (cc (is, nobody))
            | inr v ↦
                let own : user ≡ user_from_claims v.claims =
                  ground (arith, is, ap (λ c. c.user) v.is) in
                rw v.is (agree v.request v.state v.claims creds t' v.came v.bearer (rw own at got))
          ]))
