-- ===== src/CredentialsProvider/Gate.antt =====
-- credentialsprovider/credentialsprovider.go: `RequireCredentials` and the two ways in which it
-- asks for credentials.
pub mod Laws
pub mod Flow
pub mod Retry
use mcp_authkit_go.Base.{
  String, Bool, true, false, not, Option, none, some, [], ◌∷◌, ◌==◌, ◌<>◌, if◌then◌else◌,
}
use mcp_authkit_go.Base.Int.{ℤ}
use mcp_authkit_go.Base.Dict.{Dict, insert, remove}
use mcp_authkit_go.Base.Action.{
  Action, ElicitParams, Error, message, wrapped, elicitation_required, Result, ok, err, pure, ◌>>=◌,
  ◌>>◌,
}
use mcp_authkit_go.Host.{Host, Library}
use mcp_authkit_go.Value.{Float64, Value, str, GoMap}
use mcp_authkit_go.Middleware.{Context, user_from_context}
use mcp_authkit_go.OauthProvider.Gate.{ToolResult, Running, outside}
use mcp_authkit_go.CredentialsProvider.{generate_id, Provider}

abbrev pub with_credentials : {V : Type 0} → Context V → Dict V → Context V
with_credentials ctx creds = record ctx { credentials = some (some creds) }

unfoldable pub credentials_from_context : {V : Type 0} → Context V → Option (GoMap V)
credentials_from_context ctx = ctx.credentials

-- `elicit` is session.Elicit, which returns the action that the user chose.
module _ {W N Session : Type 0} (host : Host W) (lib : Library) (float : Float64 N)
    (p : Provider W N) (elicit : Session → ElicitParams → Action W (Result String)) where
  abbrev pub prompt : String → String → ElicitParams
  prompt entry_token elicitation_id = record {
    mode = "url";
    message = "Provide " <> p.name <> " credentials to continue";
    url = p.server_base_url <> p.entry_path <> "?t=" <> entry_token;
    elicitation_id = elicitation_id;
  }

  -- int(p.tokenTimeout.Seconds())
  abbrev pub pending_ttl : ℤ
  pending_ttl = float.to_int (float.seconds p.token_timeout)

  unfoldable pub build_fail_fast_error : String → Action W Error
  build_fail_fast_error sub = do
    entry_token ← generate_id host lib 32
    elicitation_id ← generate_id host lib 16
    p.pending_store.create entry_token (some (("sub", str sub) ∷ [])) pending_ttl
    pure (elicitation_required (prompt entry_token elicitation_id ∷ []))

  -- `ensureCredentialsBlocking` from the wait on
  unfoldable pub await_submission : String → String → Action W (Result (GoMap (Value N)))
  await_submission sub entry_token = do
    signal ← p.pending_store.wait_for_result entry_token (float.seconds p.token_timeout)
    elim signal [
      | err e ↦ pure (err (wrapped "credentialsprovider: waiting for submission" e))
      | ok none ↦ pure (ok none)
      | ok (some _) ↦ p.creds_store.get sub
    ]

  -- `ensureCredentialsBlocking` from the elicitation on
  unfoldable pub elicit_credentials :
      Session → String → String → String → Action W (Result (GoMap (Value N)))
  unfolding await_submission
  elicit_credentials session sub entry_token elicitation_id = do
    answer ← elicit session (prompt entry_token elicitation_id)
    elim answer [
      | err e ↦ pure (err (wrapped "credentialsprovider: elicitation request failed" e))
      | ok action ↦
          if not (action == "accept")
          then (do
            p.pending_store.pop entry_token
            pure (err (message "credentialsprovider: user declined the credentials prompt")))
          else await_submission sub entry_token
    ]

  -- the session is listed under its token while `body` runs, and taken off when it returns
  abbrev with_session : {A : Type 0} → Session → String → Action W A → Action (Running W Session) A
  with_session session entry_token body s =
      let (a, s') = outside body (record s { sessions = insert entry_token session s.sessions }) in
      (a, record s' { sessions = remove entry_token s'.sessions })

  unfoldable pub ensure_credentials_blocking :
      Session → String → Action (Running W Session) (Result (GoMap (Value N)))
  unfolding elicit_credentials
  ensure_credentials_blocking session sub = do
    entry_token ← outside (generate_id host lib 32)
    elicitation_id ← outside (generate_id host lib 16)
    created ←
        outside (p.pending_store.create entry_token (some (("sub", str sub) ∷ [])) pending_ttl)
    elim created [
      | err e ↦ pure (err (wrapped "credentialsprovider: creating pending entry" e))
      | ok _ ↦
          with_session session entry_token
            (elicit_credentials session sub entry_token elicitation_id)
    ]

  -- `next` with its request, as a function of the context that it is given
  abbrev pub Tool : Type 0
  Tool = Context (Value N) → Action (Running W Session) (Result ToolResult)

  abbrev tool_error : String → Result ToolResult
  tool_error text = ok (record { text = text; is_error = true })

  -- `RequireCredentials` where none are stored
  unfoldable pub obtain_credentials :
      Bool
      → Session
      → String
      → Tool
      → Context (Value N)
      → Action (Running W Session) (Result ToolResult)
  unfolding ensure_credentials_blocking
  obtain_credentials true session sub next ctx = do
    e ← outside (build_fail_fast_error sub)
    pure (err e)
  obtain_credentials false session sub next ctx = do
    got ← ensure_credentials_blocking session sub
    elim got [
      | err e ↦ pure (err e)
      | ok none ↦ pure (tool_error (p.name <> " credentials were not provided"))
      | ok (some creds) ↦ next (with_credentials ctx creds)
    ]

  -- The request of `next` is the one that was given; of it, the session is named.
  unfoldable pub require_credentials :
      Bool → Session → Tool → Context (Value N) → Action (Running W Session) (Result ToolResult)
  unfolding obtain_credentials
  require_credentials fail_fast session next ctx = elim (user_from_context ctx) [
    | none ↦ pure (tool_error "credentialsprovider: no authenticated user in context")
    | some user ↦ do
      got ← outside (p.creds_store.get user.sub)
      elim got [
        | err e ↦ pure (err (wrapped "credentialsprovider: checking existing credentials" e))
        | ok (some creds) ↦ next (with_credentials ctx creds)
        | ok none ↦ obtain_credentials fail_fast session user.sub next ctx
      ]
  ]
