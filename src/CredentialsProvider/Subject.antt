-- ===== src/CredentialsProvider/Subject.antt =====
-- Whose credentials `HandleSubmit` of credentialsprovider/credentialsprovider.go stores.
use mcp_authkit_go.Base.{String, List, ◌≡◌, ◌∙◌, sym, ap}
use mcp_authkit_go.Base.Dict.{Dict}
use mcp_authkit_go.Base.Int.{ℤ, pos}
use mcp_authkit_go.Base.{some, [], ◌∷◌, arith, false}
use mcp_authkit_go.Base.Action.{Error, ok, err}
use mcp_authkit_go.Host.{Library}
use mcp_authkit_go.Value.{KeepsPlain, Value, str, bool, GoMap, string_at}
use mcp_authkit_go.Store.{IsPendingStore}
use mcp_authkit_go.Store.Trace.{Call, made, AllSucceed}
use mcp_authkit_go.Store.Subject.{entry_for, later, pop_subject}
use mcp_authkit_go.Middleware.{Request}
use mcp_authkit_go.CredentialsProvider.{Provider, save, handle_submit}
use mcp_authkit_go.CredentialsProvider.Submit.{Granted, handle_submit_guard}

module _ (lib : Library) {W N : Type 0} (p : Provider W N) {Lasts : ℤ → Type 0}
    {stored : GoMap (Value N) → GoMap (Value N)} {entry : W → String → GoMap (Value N)}
    (contract : IsPendingStore p.pending_store Lasts stored entry)
    (fields_stored : KeepsPlain stored) where
  -- the world in which the form comes in
  abbrev pub arrived : String → String → ℤ → List (Call W (Value N)) → W → W
  arrived = later p.pending_store contract fields_stored

  -- Credentials are stored for the user whose call drew the token of the form, and for nobody else:
  -- where an entry with the subject was created under a token, with a time to live that lasts, and
  -- whatever calls of the pending store followed, but none of `Create` of that token, a form with
  -- the token that reaches the store of credentials is one `Set` of the store under the subject. If
  -- the store took the form, the call is signalled under its token with that subject and the answer
  -- is 200; if not, the answer is 500 and the world is the store's. The pending store keeps its
  -- contract and the plain fields of an entry (texts, booleans, floats and null); every `Create`
  -- succeeds, and time takes entries off at most.
  pub handle_submit_subject :
      (token sub : String) (ttl : ℤ) (cs : List (Call W (Value N))) (w : W) (r : Request (Value N))
      (pending collected : Dict (Value N))
      → Lasts ttl
      → (p.pending_store.create token (entry_for sub) ttl w).0 ≡ ok tt
      → AllSucceed p.pending_store entry cs (p.pending_store.create token (entry_for sub) ttl w).1
      → made p.pending_store token cs ≡ 0
      → r.query "t" ≡ token
      → Granted lib p r (arrived token sub ttl cs w) pending collected
      → let w' = arrived token sub ttl cs w in
        let answer = handle_submit lib p r w' in
        let put = p.creds_store.set sub (some collected) (p.pending_store.pop token w').1 in
        (put.0 ≡ ok tt
          → (answer.0.status ≡ 200)
            × (answer.1
                ≡ (p.pending_store.set_result token
                    (some (("sub", str sub) ∷ ("_elicit_sent", bool false) ∷ []))
                    (pos 120)
                    put.1).1))
        × ((e : Error) → put.0 ≡ err e → (answer.0.status ≡ 500) × (answer.1 ≡ put.1))
  unfolding save
  handle_submit_subject token sub ttl cs w r pending collected lasts created good none_made own g =
      let w' = arrived token sub ttl cs w in
      let popped = ap (λ k. (p.pending_store.pop k w').0) (sym own) ∙ g.popped in
      let whose =
        pop_subject p.pending_store contract fields_stored token sub ttl cs w pending lasts created
          good none_made popped in
      let saved : handle_submit lib p r w'
          ≡ save lib p token sub collected (p.pending_store.pop token w').1 =
        ((handle_submit_guard lib p r w').0 pending collected g).0
        ∙ ap (λ k. save lib p k (string_at "sub" pending) collected (p.pending_store.pop k w').1)
            own
        ∙ ap (λ x. save lib p token x collected (p.pending_store.pop token w').1) whose in
      (
        λ put. (ground (arith, saved, put), ground (arith, saved, put)),
        λ e bad. (ground (arith, saved, bad), ground (arith, saved, bad)),
      )
