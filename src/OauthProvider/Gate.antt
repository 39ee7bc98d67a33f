-- ===== src/OauthProvider/Gate.antt =====
-- oauthprovider/oauthprovider.go: `RequireToken` and the two ways in which it obtains a token.
pub mod Laws
pub mod Flow
pub mod Retry
use mcp_authkit_go.Base.{
  String, Bool, true, false, not, Option, none, some, [], ◌∷◌, ◌==◌, ◌<>◌, if◌then◌else◌,
}
use mcp_authkit_go.Base.Dict.{Dict, insert, remove}
use mcp_authkit_go.Base.Action.{
  Action, ElicitParams, Error, message, wrapped, elicitation_required, Result, ok, err, pure, ◌>>=◌,
  ◌>>◌,
}
use mcp_authkit_go.Host.{Host, Library}
use mcp_authkit_go.Value.{Float64, Value, str}
use mcp_authkit_go.Middleware.{Context, user_from_context}
use mcp_authkit_go.OauthProvider.{Provider, generate_id, pending_ttl, get_or_refresh_token}

-- mcp.CallToolResult, with one text as its content
pub record ToolResult : Type 0 where
  pub text : String
  pub is_error : Bool

-- The map `sessions` of the provider, with the world.
pub record Running (W Session : Type 0) : Type 0 where
  pub sessions : Dict Session
  pub world : W

abbrev pub outside : {W Session A : Type 0} → Action W A → Action (Running W Session) A
outside m s = ((m s.world).0, record s { world = (m s.world).1 })

abbrev pub with_token : {V : Type 0} → Context V → String → Context V
with_token ctx token = record ctx { token = some token }

unfoldable pub token_from_context : {V : Type 0} → Context V → Option String
token_from_context ctx = ctx.token

-- `elicit` is session.Elicit, which returns the action that the user chose.
module _ {W N Session : Type 0} (host : Host W) (lib : Library) (float : Float64 N)
    (p : Provider W N) (elicit : Session → ElicitParams → Action W (Result String)) where
  abbrev pub prompt : String → String → ElicitParams
  prompt auth_url elicitation_id = record {
    mode = "url";
    message = "Authorize access to " <> p.name <> " to continue";
    url = auth_url;
    elicitation_id = elicitation_id;
  }

  unfoldable pub build_fail_fast_error : String → Action W Error
  build_fail_fast_error sub = do
    state ← generate_id host lib 24
    elicitation_id ← generate_id host lib 16
    p.pending_store.create state (some (("sub", str sub) ∷ [])) (pending_ttl host float p)
    pure (elicitation_required (prompt (p.build_auth_url state p.redirect_uri) elicitation_id ∷ []))

  -- `ensureTokenBlocking` from the wait on
  unfoldable pub await_callback : String → String → Action W (Result String)
  await_callback sub state = do
    signal ← p.pending_store.wait_for_result state (float.seconds p.token_timeout)
    elim signal [
      | err e ↦ pure (err (wrapped "oauthprovider: waiting for callback" e))
      | ok none ↦ pure (ok "")
      | ok (some _) ↦ get_or_refresh_token host float p sub
    ]

  -- `ensureTokenBlocking` from the elicitation on
  unfoldable pub elicit_token : Session → String → String → String → Action W (Result String)
  unfolding await_callback
  elicit_token session sub state elicitation_id = do
    answer ← elicit session (prompt (p.build_auth_url state p.redirect_uri) elicitation_id)
    elim answer [
      | err e ↦ pure (err (wrapped "oauthprovider: elicitation request failed" e))
      | ok action ↦
          if not (action == "accept")
          then (do
            p.pending_store.pop state
            pure (err (message "oauthprovider: user declined the authorization prompt")))
          else await_callback sub state
    ]

  -- the session is listed under its state while `body` runs, and taken off when it returns
  abbrev with_session : {A : Type 0} → Session → String → Action W A → Action (Running W Session) A
  with_session session state body s =
      let (a, s') = outside body (record s { sessions = insert state session s.sessions }) in
      (a, record s' { sessions = remove state s'.sessions })

  unfoldable pub ensure_token_blocking :
      Session → String → Action (Running W Session) (Result String)
  unfolding elicit_token
  ensure_token_blocking session sub = do
    state ← outside (generate_id host lib 24)
    elicitation_id ← outside (generate_id host lib 16)
    created ←
        outside
          (p.pending_store.create state (some (("sub", str sub) ∷ [])) (pending_ttl host float p))
    elim created [
      | err e ↦ pure (err (wrapped "oauthprovider: creating pending entry" e))
      | ok _ ↦ with_session session state (elicit_token session sub state elicitation_id)
    ]

  -- `next` with its request, as a function of the context that it is given
  abbrev pub Tool : Type 0
  Tool = Context (Value N) → Action (Running W Session) (Result ToolResult)

  abbrev tool_error : String → Result ToolResult
  tool_error text = ok (record { text = text; is_error = true })

  -- `RequireToken` where no token is stored
  unfoldable pub obtain_token :
      Bool
      → Session
      → String
      → Tool
      → Context (Value N)
      → Action (Running W Session) (Result ToolResult)
  unfolding ensure_token_blocking
  obtain_token true session sub next ctx = do e ← outside (build_fail_fast_error sub); pure (err e)
  obtain_token false session sub next ctx = do
    got ← ensure_token_blocking session sub
    elim got [
      | err e ↦ pure (err e)
      | ok token ↦
          if token == ""
          then pure (tool_error (p.name <> " authorization was not completed"))
          else next (with_token ctx token)
    ]

  -- The request of `next` is the one that was given; of it, the session is named.
  unfoldable pub require_token :
      Bool → Session → Tool → Context (Value N) → Action (Running W Session) (Result ToolResult)
  unfolding obtain_token
  require_token fail_fast session next ctx = elim (user_from_context ctx) [
    | none ↦ pure (tool_error "oauthprovider: no authenticated user in context")
    | some user ↦ do
      got ← outside (get_or_refresh_token host float p user.sub)
      elim got [
        | err e ↦ pure (err (wrapped "oauthprovider: checking existing token" e))
        | ok token ↦
            if not (token == "")
            then next (with_token ctx token)
            else obtain_token fail_fast session user.sub next ctx
      ]
  ]
