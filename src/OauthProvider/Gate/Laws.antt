-- ===== src/OauthProvider/Gate/Laws.antt =====
-- What `RequireToken` of oauthprovider/oauthprovider.go guarantees to the tool behind it.
use mcp_authkit_go.Base.{String, Bool, true, false, none, some, [], ◌∷◌, ◌≡◌, ◌≢◌, inl, inr, refl}
use mcp_authkit_go.Base.{arith, eq_iff, ◌==◌, Bool-cases, Option-cases}
use mcp_authkit_go.Base.Dict.{lookup, insert, lookup-insert, lookup-remove}
use mcp_authkit_go.Base.Action.{Action, ElicitParams, Result, ok, Result-cases}
use mcp_authkit_go.Host.{Host, Library}
use mcp_authkit_go.Value.{Float64, Value, str}
use mcp_authkit_go.Middleware.{Context, User, user_from_context}
use mcp_authkit_go.OauthProvider.{Provider, generate_id, pending_ttl, get_or_refresh_token}
use mcp_authkit_go.OauthProvider.Gate.{
  ToolResult, Running, outside, with_token, Tool, prompt, await_callback, elicit_token,
  ensure_token_blocking, obtain_token, require_token, build_fail_fast_error,
}

module _ {W N Session : Type 0} (host : Host W) (lib : Library) (float : Float64 N)
    (p : Provider W N) (elicit : Session → ElicitParams → Action W (Result String)) where
  abbrev gate :
      Bool
      → Session
      → Tool host lib float p elicit
      → Context (Value N)
      → Action (Running W Session) (Result ToolResult)
  gate = require_token host lib float p elicit

  -- A token that is not empty and that `getOrRefreshToken` returns for the subject, in some world.
  abbrev pub Obtained : String → String → Type 0
  Obtained sub token =
      (token ≢ "") × (w : W) × ((get_or_refresh_token host float p sub w).0 ≡ ok token)

  await_callback-Obtained :
      (sub state token : String) (w : W)
      → token ≢ ""
      → (await_callback host lib float p elicit sub state w).0 ≡ ok token
      → Obtained sub token
  unfolding await_callback
  await_callback-Obtained sub state token w real e =
      let (signal, w') = p.pending_store.wait_for_result state (float.seconds p.token_timeout) w in
      elim (Result-cases
        (p.pending_store.wait_for_result state (float.seconds p.token_timeout) w).0) [
          | inr (x, bad) ↦ absurd (ground arith)
          | inl (found, got) ↦ elim (Option-cases found) [
            | inl timed_out ↦ absurd (ground arith)
            | inr (m, is) ↦ (real, w', ground arith)
          ]
        ]

  elicit_token-Obtained :
      (session : Session) (sub state id token : String) (w : W)
      → token ≢ ""
      → (elicit_token host lib float p elicit session sub state id w).0 ≡ ok token
      → Obtained sub token
  unfolding elicit_token
  elicit_token-Obtained session sub state id token w real e =
      let ask = prompt host lib float p elicit (p.build_auth_url state p.redirect_uri) id in
      elim (Result-cases (elicit session ask w).0) [
        | inr (x, bad) ↦ absurd (ground arith)
        | inl (action, got) ↦ elim (Bool-cases (action == "accept")) [
          | inr declined ↦ absurd (ground arith)
          | inl accepted ↦
              await_callback-Obtained sub state token (elicit session ask w).1 real (ground arith)
        ]
      ]

  ensure_token_blocking-Obtained :
      (session : Session) (sub token : String) (s : Running W Session)
      → token ≢ ""
      → (ensure_token_blocking host lib float p elicit session sub s).0 ≡ ok token
      → Obtained sub token
  unfolding ensure_token_blocking
  ensure_token_blocking-Obtained session sub token s real e =
      let (state, w1) = generate_id host lib 24 s.world in
      let (id, w2) = generate_id host lib 16 w1 in
      let create =
        p.pending_store.create state (some (("sub", str sub) ∷ [])) (pending_ttl host float p) in
      elim (Result-cases (create w2).0) [
        | inr (x, bad) ↦ absurd (ground arith)
        | inl (_, created) ↦
            elicit_token-Obtained session sub state id token (create w2).1 real (ground arith)
      ]

  -- The gate, where no token is stored.
  obtain_token_guards :
      (fail_fast : Bool) (session : Session) (sub : String)
      (next other : Tool host lib float p elicit) (ctx : Context (Value N)) (s : Running W Session)
      → ((token : String) (s' : Running W Session)
          → Obtained sub token
          → next (with_token ctx token) s' ≡ other (with_token ctx token) s')
      → obtain_token host lib float p elicit fail_fast session sub next ctx s
        ≡ obtain_token host lib float p elicit fail_fast session sub other ctx s
  unfolding obtain_token
  obtain_token_guards true session sub next other ctx s agree = refl
  obtain_token_guards false session sub next other ctx s agree =
      let asked = ensure_token_blocking host lib float p elicit session sub s in
      elim (Result-cases asked.0) [
        | inr (e, bad) ↦ ground arith
        | inl (token, got) ↦ elim (Bool-cases (token == "")) [
          | inl blank ↦ ground arith
          | inr real ↦
              let same = agree token asked.1 (
                ensure_token_blocking-Obtained session sub token s
                  (λ z. ground (arith, eq_iff token "")) got) in
              ground (arith, same)
        ]
      ]

  -- A tool behind the gate is only called with a token that is not empty and that
  -- `getOrRefreshToken` returned for the user in the context, whether it was there at once or after
  -- the callback: two tools that agree on such calls give the same answer and state.
  pub require_token_guards :
      (fail_fast : Bool) (session : Session) (next other : Tool host lib float p elicit)
      (ctx : Context (Value N)) (s : Running W Session)
      → ((user : User (Value N)) (token : String) (s' : Running W Session)
          → user_from_context ctx ≡ some user
          → Obtained user.sub token
          → next (with_token ctx token) s' ≡ other (with_token ctx token) s')
      → gate fail_fast session next ctx s ≡ gate fail_fast session other ctx s
  unfolding require_token
  require_token_guards fail_fast session next other ctx s agree =
      elim (Option-cases (user_from_context ctx)) [
        | inl nobody ↦ ground arith
        | inr (user, is) ↦
            elim (Result-cases (get_or_refresh_token host float p user.sub s.world).0) [
              | inr (e, bad) ↦ ground arith
              | inl (token, got) ↦
                  let s1 = (outside (get_or_refresh_token host float p user.sub) s).1 in
                  elim (Bool-cases (token == "")) [
                    | inr real ↦
                        let same =
                          agree user token s1 is
                            (λ z. ground (arith, eq_iff token ""), s.world, got) in
                        ground (arith, same)
                    | inl lacks ↦
                        let same =
                          obtain_token_guards fail_fast session user.sub next other ctx s1
                            (λ t s' o. agree user t s' is o) in
                        ground (arith, same)
                  ]
            ]
      ]

  -- With failFast the session is never asked: whatever `Elicit` would do, the answer is the same.
  pub require_token_fails_fast :
      (other : Session → ElicitParams → Action W (Result String)) (session : Session)
      (next : Tool host lib float p elicit) (ctx : Context (Value N))
      → gate true session next ctx ≡ require_token host lib float p other true session next ctx
  unfolding require_token obtain_token build_fail_fast_error
  require_token_fails_fast other session next ctx = refl

  -- A blocking call leaves no session behind: where its fresh state is not taken yet, the sessions
  -- that are listed when it returns are those that were listed when it began, however it ends.
  pub ensure_token_blocking-sessions :
      (session : Session) (sub : String) (s : Running W Session)
      → lookup (generate_id host lib 24 s.world).0 s.sessions ≡ none
      → (k : String)
      → lookup k (ensure_token_blocking host lib float p elicit session sub s).1.sessions
        ≡ lookup k s.sessions
  unfolding ensure_token_blocking
  ensure_token_blocking-sessions session sub s free k =
      let (state, w1) = generate_id host lib 24 s.world in
      let (elicitation_id, w2) = generate_id host lib 16 w1 in
      elim (Result-cases
        (p.pending_store.create state (some (("sub", str sub) ∷ [])) (pending_ttl host float p)
          w2).0) [
            | inr (e, bad) ↦ ground arith
            | inl (_, created) ↦ ground (
              arith,
              lookup-remove state k (insert state session s.sessions),
              lookup-insert state k session s.sessions,
              eq_iff state k,
            )
          ]
