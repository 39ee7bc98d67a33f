-- ===== src/CredentialsProvider/Gate/Laws.antt =====
-- What `RequireCredentials` of credentialsprovider/credentialsprovider.go guarantees to the tool
-- behind it.
use mcp_authkit_go.Base.{String, Bool, true, false, none, some, [], ◌∷◌, ◌≡◌, inl, inr, refl}
use mcp_authkit_go.Base.{arith, eq_iff, ◌==◌, Bool-cases, Option-cases}
use mcp_authkit_go.Base.Dict.{Dict, lookup, insert, lookup-insert, lookup-remove}
use mcp_authkit_go.Base.Action.{Action, ElicitParams, Result, ok, Result-cases}
use mcp_authkit_go.Host.{Host, Library}
use mcp_authkit_go.Value.{Float64, Value, str}
use mcp_authkit_go.Middleware.{Context, User, user_from_context}
use mcp_authkit_go.OauthProvider.Gate.{ToolResult, Running, outside}
use mcp_authkit_go.CredentialsProvider.{generate_id, Provider}
use mcp_authkit_go.CredentialsProvider.Gate.{
  Tool, prompt, pending_ttl, build_fail_fast_error, with_credentials, await_submission,
  elicit_credentials, ensure_credentials_blocking, obtain_credentials, require_credentials,
}

module _ {W N Session : Type 0} (host : Host W) (lib : Library) (float : Float64 N)
    (p : Provider W N) (elicit : Session → ElicitParams → Action W (Result String)) where
  abbrev gate :
      Bool
      → Session
      → Tool host lib float p elicit
      → Context (Value N)
      → Action (Running W Session) (Result ToolResult)
  gate = require_credentials host lib float p elicit

  -- Credentials that the store returns for the subject, in some world.
  abbrev pub Kept : String → Dict (Value N) → Type 0
  Kept sub creds = (w : W) × ((p.creds_store.get sub w).0 ≡ ok (some creds))

  await_submission-Kept :
      (sub entry_token : String) (creds : Dict (Value N)) (w : W)
      → (await_submission host lib float p elicit sub entry_token w).0 ≡ ok (some creds)
      → Kept sub creds
  unfolding await_submission
  await_submission-Kept sub entry_token creds w e =
      let waited = p.pending_store.wait_for_result entry_token (float.seconds p.token_timeout) w in
      elim (Result-cases waited.0) [
        | inr (x, bad) ↦ absurd (ground arith)
        | inl (found, got) ↦ elim (Option-cases found) [
          | inl timed_out ↦ absurd (ground arith)
          | inr (m, is) ↦ (waited.1, ground arith)
        ]
      ]

  elicit_credentials-Kept :
      (session : Session) (sub entry_token id : String) (creds : Dict (Value N)) (w : W)
      → (elicit_credentials host lib float p elicit session sub entry_token id w).0
        ≡ ok (some creds)
      → Kept sub creds
  unfolding elicit_credentials
  elicit_credentials-Kept session sub entry_token id creds w e =
      let ask = prompt host lib float p elicit entry_token id in
      elim (Result-cases (elicit session ask w).0) [
        | inr (x, bad) ↦ absurd (ground arith)
        | inl (action, got) ↦ elim (Bool-cases (action == "accept")) [
          | inr declined ↦ absurd (ground arith)
          | inl accepted ↦
              await_submission-Kept sub entry_token creds (elicit session ask w).1 (ground arith)
        ]
      ]

  ensure_credentials_blocking-Kept :
      (session : Session) (sub : String) (creds : Dict (Value N)) (s : Running W Session)
      → (ensure_credentials_blocking host lib float p elicit session sub s).0 ≡ ok (some creds)
      → Kept sub creds
  unfolding ensure_credentials_blocking
  ensure_credentials_blocking-Kept session sub creds s e =
      let (entry_token, w1) = generate_id host lib 32 s.world in
      let (id, w2) = generate_id host lib 16 w1 in
      let created =
        p.pending_store.create entry_token (some (("sub", str sub) ∷ []))
          (pending_ttl host lib float p elicit) w2 in
      elim (Result-cases created.0) [
        | inr (x, bad) ↦ absurd (ground arith)
        | inl (_, done) ↦
            elicit_credentials-Kept session sub entry_token id creds created.1 (ground arith)
      ]

  -- The gate, where no credentials are stored.
  obtain_credentials_guards :
      (fail_fast : Bool) (session : Session) (sub : String)
      (next other : Tool host lib float p elicit) (ctx : Context (Value N)) (s : Running W Session)
      → ((creds : Dict (Value N)) (s' : Running W Session)
          → Kept sub creds
          → next (with_credentials ctx creds) s' ≡ other (with_credentials ctx creds) s')
      → obtain_credentials host lib float p elicit fail_fast session sub next ctx s
        ≡ obtain_credentials host lib float p elicit fail_fast session sub other ctx s
  unfolding obtain_credentials
  obtain_credentials_guards true session sub next other ctx s agree = refl
  obtain_credentials_guards false session sub next other ctx s agree =
      let asked = ensure_credentials_blocking host lib float p elicit session sub s in
      elim (Result-cases asked.0) [
        | inr (e, bad) ↦ ground arith
        | inl (found, got) ↦ elim (Option-cases found) [
          | inl nothing ↦ ground arith
          | inr (creds, is) ↦
              let same =
                agree creds asked.1
                  (ensure_credentials_blocking-Kept session sub creds s (ground arith)) in
              ground (arith, same)
        ]
      ]

  -- A tool behind the gate is only called with credentials that the store returned for the user in
  -- the context, whether they were there at once or after the form: two tools that agree on such
  -- calls give the same answer and state.
  pub require_credentials_guards :
      (fail_fast : Bool) (session : Session) (next other : Tool host lib float p elicit)
      (ctx : Context (Value N)) (s : Running W Session)
      → ((user : User (Value N)) (creds : Dict (Value N)) (s' : Running W Session)
          → user_from_context ctx ≡ some user
          → Kept user.sub creds
          → next (with_credentials ctx creds) s' ≡ other (with_credentials ctx creds) s')
      → gate fail_fast session next ctx s ≡ gate fail_fast session other ctx s
  unfolding require_credentials
  require_credentials_guards fail_fast session next other ctx s agree =
      elim (Option-cases (user_from_context ctx)) [
        | inl nobody ↦ ground arith
        | inr (user, is) ↦
            let read = outside (p.creds_store.get user.sub) s in
            elim (Result-cases (p.creds_store.get user.sub s.world).0) [
              | inr (e, bad) ↦ ground arith
              | inl (found, got) ↦ elim (Option-cases found) [
                | inr (creds, has) ↦
                    let same = agree user creds read.1 is (s.world, ground arith) in
                    ground (arith, same)
                | inl nothing ↦
                    let same =
                      obtain_credentials_guards fail_fast session user.sub next other ctx read.1
                        (λ c s' k. agree user c s' is k) in
                    ground (arith, same)
              ]
            ]
      ]

  -- With failFast the session is never asked: whatever `Elicit` would do, the answer is the same.
  pub require_credentials_fails_fast :
      (other : Session → ElicitParams → Action W (Result String)) (session : Session)
      (next : Tool host lib float p elicit) (ctx : Context (Value N))
      → gate true session next ctx
        ≡ require_credentials host lib float p other true session next ctx
  unfolding require_credentials obtain_credentials build_fail_fast_error
  require_credentials_fails_fast other session next ctx = refl

  -- A blocking call leaves no session behind: where its fresh token is not taken yet, the sessions
  -- that are listed when it returns are those that were listed when it began, however it ends.
  pub ensure_credentials_blocking-sessions :
      (session : Session) (sub : String) (s : Running W Session)
      → lookup (generate_id host lib 32 s.world).0 s.sessions ≡ none
      → (k : String)
      → lookup k (ensure_credentials_blocking host lib float p elicit session sub s).1.sessions
        ≡ lookup k s.sessions
  unfolding ensure_credentials_blocking
  ensure_credentials_blocking-sessions session sub s free k =
      let (entry_token, w1) = generate_id host lib 32 s.world in
      let (elicitation_id, w2) = generate_id host lib 16 w1 in
      let created =
        p.pending_store.create entry_token (some (("sub", str sub) ∷ []))
          (pending_ttl host lib float p elicit) w2 in
      elim (Result-cases created.0) [
        | inr (e, bad) ↦ ground arith
        | inl (_, done) ↦ ground (
          arith,
          lookup-remove entry_token k (insert entry_token session s.sessions),
          lookup-insert entry_token k session s.sessions,
          eq_iff entry_token k,
        )
      ]
