-- ===== src/Server/Runs.antt =====
-- Runs of a server: the contexts that the MCP SDK holds, request after request. A session that
-- stays open between requests runs tools in the context of the request that opened it.
use mcp_authkit_go.Base.{String, none, some, List, [], ◌∷◌, ◌≡◌, ◌⊎◌, inl, inr}
use mcp_authkit_go.Base.{refl, ◌∙◌, sym, ap}
use mcp_authkit_go.Base.Dict.{Dict}
use mcp_authkit_go.Host.{Library}
use mcp_authkit_go.Http.{HttpClient}
use mcp_authkit_go.Value.{Value}
use mcp_authkit_go.JwtValidator.{Jwx}
use mcp_authkit_go.Middleware.{Context, Request, Handler, Options}
use mcp_authkit_go.OauthProvider.Gate.{Running}
use mcp_authkit_go.Server.{Server, validator_of, Mounted, serve}
use mcp_authkit_go.Server.Handed.{Bearer, context_of, guarded-Passed, handed, handed_lem}

module _ {W KeySet Token N : Type 0} (http : HttpClient W) (jwx : Jwx W KeySet Token (Value N))
    (lib : Library) (opts : Options) where
  module _ {K Session : Type 0} (Held : K → Context (Value N) → Type 0) where
    -- The request came in, in this state.
    abbrev pub Came :
        List (Request (Value N) × Server K W Session)
        → Request (Value N)
        → Server K W Session
        → Type 0
    Came [] r s = ⊥
    Came ((q, u) ∷ h) r s = ((q ≡ r) × (u ≡ s)) ⊎ Came h r s

    -- The middleware called the wrapped handler with this context.
    abbrev pub Handed : List (Request (Value N) × Server K W Session) → Context (Value N) → Type 0
    Handed [] ctx = ⊥
    Handed ((q, u) ∷ h) ctx = (handed http jwx lib opts q u ≡ some ctx) ⊎ Handed h ctx

    -- The states of a server, from one whose SDK holds no context, and the requests that came in,
    -- the latest first, each with the state it came in. No request comes in with a user. In
    -- between, and while requests are handled, the state changes in any way in which the SDK comes
    -- to hold no context but one that the middleware handed to it, or one with no user.
    pub data Run : List (Request (Value N) × Server K W Session) → Server K W Session → Type 0 where
      fresh : (s : Server K W Session) → ((ctx : Context (Value N)) → ¬ Held s.sdk ctx) → Run [] s
      comes :
          {h : List (Request (Value N) × Server K W Session)} {s : Server K W Session}
          (r : Request (Value N))
          → r.context.user ≡ none
          → Run h s
          → Run ((r, s) ∷ h) s
      moves :
          {h : List (Request (Value N) × Server K W Session)} {s : Server K W Session}
          (s' : Server K W Session)
          → ((ctx : Context (Value N))
              → Held s'.sdk ctx
              → Held s.sdk ctx ⊎ (Handed h ctx ⊎ (ctx.user ≡ none)))
          → Run h s
          → Run h s'

    -- The context is that of a request that came in, for the user of claims that its token passed
    -- with.
    pub record Vouched (h : List (Request (Value N) × Server K W Session)) (ctx : Context (Value N))
        : Type 0 where
      pub request : Request (Value N)
      pub state : Server K W Session
      pub claims : Dict (Value N)
      pub came : Came h request state
      pub bearer : Bearer http jwx lib opts request (validator_of state) claims
      pub is : ctx ≡ context_of http jwx lib opts request claims

    -- It has no user, or is one that is vouched for.
    abbrev pub Known : List (Request (Value N) × Server K W Session) → Context (Value N) → Type 0
    Known h ctx = (ctx.user ≡ none) ⊎ Vouched h ctx

    now_vouched :
        {h : List (Request (Value N) × Server K W Session)} {s : Server K W Session}
        {ctx : Context (Value N)} (r : Request (Value N)) (claims : Dict (Value N))
        → Bearer http jwx lib opts r (validator_of s) claims
        → ctx ≡ context_of http jwx lib opts r claims
        → Known ((r, s) ∷ h) ctx
    now_vouched {s} r claims bearer is = inr (record {
      request = r;
      state = s;
      claims = claims;
      came = inl (refl, refl);
      bearer = bearer;
      is = is;
    })

    later :
        {h : List (Request (Value N) × Server K W Session)} {ctx : Context (Value N)}
        (e : Request (Value N) × Server K W Session)
        → Known h ctx
        → Known (e ∷ h) ctx
    later e (inl nobody) = inl nobody
    later e (inr v) = inr (record {
      request = v.request;
      state = v.state;
      claims = v.claims;
      came = inr v.came;
      bearer = v.bearer;
      is = v.is;
    })

    Run-Handed :
        {h : List (Request (Value N) × Server K W Session)} {s : Server K W Session}
        → Run h s
        → (ctx : Context (Value N)) → Handed h ctx
        → Known h ctx
    Run-Handed (fresh s free) ctx k = absurd k
    Run-Handed (comes {h} {s} r outside run) ctx (inl e) =
        elim (handed_lem http jwx lib opts r s ctx outside e) [
          | inl nobody ↦ inl nobody
          | inr (claims, bearer, is) ↦ now_vouched r claims bearer is
        ]
    Run-Handed (comes {h} {s} r outside run) ctx (inr k) = later (r, s) (Run-Handed run ctx k)
    Run-Handed (moves s' from run) ctx k = Run-Handed run ctx k

    -- Every context that the SDK holds has no user, or is one that is vouched for.
    Run-Held :
        {h : List (Request (Value N) × Server K W Session)} {s : Server K W Session}
        → Run h s
        → (ctx : Context (Value N)) → Held s.sdk ctx
        → Known h ctx
    Run-Held (fresh s free) ctx k = absurd (free ctx k)
    Run-Held (comes {h} {s} r outside run) ctx k = later (r, s) (Run-Held run ctx k)
    Run-Held (moves s' from run) ctx k = elim (from ctx k) [
      | inl before ↦ Run-Held run ctx before
      | inr (inl got) ↦ Run-Handed run ctx got
      | inr (inr nobody) ↦ inl nobody
    ]

    module _ (mcp : Mounted W N Session → Handler (Server K W Session) (Value N) String)
        (in_contexts : (a b : Mounted W N Session) (r : Request (Value N)) (s : Server K W Session)
          → ((session : Session) (ctx : Context (Value N)) (t : Running W Session)
              → (ctx ≡ r.context) ⊎ (Held s.sdk ctx ⊎ (ctx.user ≡ none))
              → a session ctx t ≡ b session ctx t)
          → mcp a r s ≡ mcp b r s)
        (a b : Mounted W N Session) where
      -- In a run of a server, two tools are served alike if they agree in every context that has no
      -- user or is vouched for.
      pub serve-cong :
          {h : List (Request (Value N) × Server K W Session)} {s : Server K W Session}
          (r : Request (Value N))
          → Run h s
          → r.context.user ≡ none
          → ((ctx : Context (Value N)) (session : Session) (t : Running W Session)
              → Known ((r, s) ∷ h) ctx
              → a session ctx t ≡ b session ctx t)
          → serve http jwx lib opts mcp a r s ≡ serve http jwx lib opts mcp b r s
      serve-cong {h} {s} r run outside agree = elim (guarded-Passed http jwx lib opts r s) [
        | inl same ↦
            same (mcp a)
            ∙ in_contexts a b r s (λ session ctx t from. agree ctx session t (elim from [
              | inl is ↦ inl (ap (λ c. c.user) is ∙ outside)
              | inr (inl before) ↦ later (r, s) (Run-Held run ctx before)
              | inr (inr nobody) ↦ inl nobody
            ]))
            ∙ sym (same (mcp b))
        | inr (inl (claims, s1, bearer, kept, same)) ↦
            same (mcp a)
            ∙ in_contexts a b (record r { context = context_of http jwx lib opts r claims }) s1
                (λ session ctx t from. agree ctx session t (elim from [
                  | inl is ↦ now_vouched r claims bearer is
                  | inr (inl before) ↦ later (r, s) (Run-Held run ctx (rw (sym kept) before))
                  | inr (inr nobody) ↦ inl nobody
                ]))
            ∙ sym (same (mcp b))
        | inr (inr refused) ↦ (refused (mcp a)).1 (mcp b)
      ]
