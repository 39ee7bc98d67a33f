-- ===== src/Server/Handed.antt =====
-- What the middleware hands to the handler behind it, in a server.
use mcp_authkit_go.Base.{String, Option, none, some, [], ◌≡◌, ◌≢◌, ◌⊎◌, inl, inr}
use mcp_authkit_go.Base.{arith, refl, ◌<>◌, ◌==◌, ◌||◌, ap, Bool-cases, Option-cases}
use mcp_authkit_go.Base.Dict.{Dict}
use mcp_authkit_go.Base.Action.{Action, Result, Result-cases}
use mcp_authkit_go.Host.{Library}
use mcp_authkit_go.Http.{HttpClient}
use mcp_authkit_go.Value.{Value}
use mcp_authkit_go.JwtValidator.{FailReason, Jwx, Validator, validate}
use mcp_authkit_go.JwtValidator.Complete.{Passes, validate_iff}
use mcp_authkit_go.Middleware.{
  Context, Request, Handler, Options, new, with_user, user_from_claims, is_open_path,
  extract_bearer_token,
}
use mcp_authkit_go.Middleware.Access.{extract_bearer_token_iff}
use mcp_authkit_go.Server.{Server, validator_of, on_validator, guarded}

module _ {W KeySet Token N : Type 0} (http : HttpClient W) (jwx : Jwx W KeySet Token (Value N))
    (lib : Library) (opts : Options) where
  -- The token in the Authorization header passes the validator with these claims.
  pub record Bearer (r : Request (Value N)) (v : Validator W) (claims : Dict (Value N))
      : Type 0 where
    pub token : String
    pub presented : r.header "Authorization" ≡ "Bearer " <> token
    pub real : token ≢ ""
    pub passes : Passes http jwx lib token opts.issuer_url v claims

  -- the context of a request for the user of the claims
  abbrev pub context_of : Request (Value N) → Dict (Value N) → Context (Value N)
  context_of r claims = with_user r.context (user_from_claims claims)

  module _ {K Session : Type 0} where
    -- The middleware hands a request on as it is, with the user of claims of its token, or not at
    -- all, and leaves what the SDK keeps alone.
    abbrev pub Passed : Request (Value N) → Server K W Session → Type 0
    Passed r s =
        ((f : Handler (Server K W Session) (Value N) String)
          → guarded http jwx lib opts f r s ≡ f r s)
        ⊎ (((claims : Dict (Value N)) × (s1 : Server K W Session) × Bearer r (validator_of s) claims
              × (s1.sdk ≡ s.sdk)
              × ((f : Handler (Server K W Session) (Value N) String)
                  → guarded http jwx lib opts f r s
                    ≡ f (record r { context = context_of r claims }) s1))
            ⊎ ((f : Handler (Server K W Session) (Value N) String)
                → ((guarded http jwx lib opts f r s).1.sdk ≡ s.sdk)
                  × ((g : Handler (Server K W Session) (Value N) String)
                      → guarded http jwx lib opts f r s ≡ guarded http jwx lib opts g r s)))

    pub guarded-Passed : (r : Request (Value N)) (s : Server K W Session) → Passed r s
    unfolding new
    guarded-Passed r s =
        elim (Bool-cases (r.method == "OPTIONS" || is_open_path r.path opts.open_paths)) [
          | inl free ↦ inl (λ f. ground (arith, free))
          | inr closed ↦ elim (Option-cases (extract_bearer_token r)) [
            | inl missing ↦
                inr (
                  inr
                    (λ f. (ground (arith, closed, missing), λ g. ground (arith, closed, missing))))
            | inr (token, presented) ↦
                let check : Action (Server K W Session) (FailReason × Result (Dict (Value N))) =
                  on_validator (validate http jwx lib token opts.issuer_url) in
                elim (Result-cases (check s).0.1) [
                  | inr (e, failed) ↦ inr (
                      inr (λ f. (
                        ground (arith, closed, presented, failed),
                        λ g. ground (arith, closed, presented, failed),
                      )))
                  | inl (claims, passed) ↦
                      let (bearer, real) = (extract_bearer_token_iff r token).0 presented in
                      inr (
                        inl (
                          claims,
                          (check s).1,
                          record {
                            token = token;
                            presented = bearer;
                            real = real;
                            passes =
                                (validate_iff http jwx lib token opts.issuer_url (validator_of s)
                                    claims).0
                                  passed;
                          },
                          refl,
                          λ f. ground (arith, closed, presented, passed),
                        ))
                ]
          ]
        ]

  module _ {Session : Type 0} where
    -- a handler that only keeps the context that it is called with
    abbrev note : Handler (Server (Option (Context (Value N))) W Session) (Value N) String
    note r s = (record { status = 200; headers = []; body = "" }, record s { sdk = some r.context })

    -- The context that the middleware calls the wrapped handler with, if it calls it.
    abbrev pub handed :
        {K : Type 0} → Request (Value N) → Server K W Session → Option (Context (Value N))
    handed r s =
        (guarded http jwx lib opts note r (record {
          sdk = none;
          oidc_configs = s.oidc_configs;
          sessions = s.sessions;
          world = s.world;
        })).1.sdk

    pub handed_lem :
        {K : Type 0} (r : Request (Value N)) (s : Server K W Session) (ctx : Context (Value N))
        → r.context.user ≡ none
        → handed r s ≡ some ctx
        → (ctx.user ≡ none)
          ⊎ ((claims : Dict (Value N)) × Bearer r (validator_of s) claims
              × (ctx ≡ context_of r claims))
    handed_lem r s ctx outside e =
        let s0 : Server (Option (Context (Value N))) W Session = record {
          sdk = none;
          oidc_configs = s.oidc_configs;
          sessions = s.sessions;
          world = s.world;
        } in
        elim (guarded-Passed r s0) [
          | inl same ↦
              let at = ap (λ x. x.1.sdk) (same note) in inl (ground (arith, at, e, outside))
          | inr (inl (claims, s1, bearer, kept, same)) ↦
              let at = ap (λ x. x.1.sdk) (same note) in inr (claims, bearer, ground (arith, at, e))
          | inr (inr refused) ↦ absurd (cc ((refused note).0, e))
        ]
