-- ===== src/CredentialsProvider/Gate/Retry.antt =====
-- The fail-fast flow of credentialsprovider/credentialsprovider.go: a tool call that has no
-- credentials ends with the address of the form, the form comes to `HandleSubmit` later, and the
-- user calls the tool again.
use mcp_authkit_go.Base.{String, false, true, List, none, some, [], ◌∷◌, ◌≡◌, ◌∙◌, ap, sym}
use mcp_authkit_go.Base.{arith}
use mcp_authkit_go.Base.Int.{ℤ}
use mcp_authkit_go.Base.Dict.{Dict, lookup}
use mcp_authkit_go.Base.Action.{Action, ElicitParams, elicitation_required, Result, ok, err}
use mcp_authkit_go.Host.{Host, Library}
use mcp_authkit_go.Value.{KeepsPlain, Float64, Value, GoMap, string_at}
use mcp_authkit_go.Store.{IsTokenStore, IsPendingStore}
use mcp_authkit_go.Store.Trace.{Call, made, AllSucceed}
use mcp_authkit_go.Store.Subject.{later, pop_subject}
use mcp_authkit_go.Middleware.{Context, User, user_from_context, Request}
use mcp_authkit_go.OauthProvider.Gate.{Running}
use mcp_authkit_go.CredentialsProvider.{Provider, Variable, handle_submit}
use mcp_authkit_go.CredentialsProvider.Submit.{Granted, collected_at, is_blank, handle_submit_guard}
use mcp_authkit_go.CredentialsProvider.Deliver.{
  lookup-served, stored_at, served, handle_submit-delivers,
}
use mcp_authkit_go.CredentialsProvider.Gate.{
  Tool, prompt, pending_ttl, with_credentials, build_fail_fast_error, obtain_credentials,
  require_credentials,
}
use mcp_authkit_go.CredentialsProvider.Gate.Flow.{entry_token, drawn, created}

module _ {W N Session : Type 0} (host : Host W) (lib : Library) (float : Float64 N)
    (p : Provider W N) (elicit : Session → ElicitParams → Action W (Result String))
    {Lasts : ℤ → Type 0} {kept stored : GoMap (Value N) → GoMap (Value N)}
    {entry : W → String → GoMap (Value N)} (creds : IsTokenStore p.creds_store kept)
    (fields_kept : KeepsPlain kept) (pendings : IsPendingStore p.pending_store Lasts stored entry)
    (fields_stored : KeepsPlain stored) (lasts : Lasts (pending_ttl host lib float p elicit))
    (still : (k sub : String) (m : GoMap (Value N)) (ttl : ℤ) (w : W)
      → (p.creds_store.get sub (p.pending_store.set_result k m ttl w).1).0
        ≡ (p.creds_store.get sub w).0) where
  -- what the first call drew, and the world after its entry was created and the calls `cs` were
  -- made
  abbrev pub token_of : String → W → String
  token_of sub w = entry_token host lib float p elicit sub w

  abbrev pub arrival : String → List (Call W (Value N)) → W → W
  arrival sub cs w =
      later p.pending_store pendings fields_stored (token_of sub w) sub
        (pending_ttl host lib float p elicit) cs (drawn host lib float p elicit sub w).1

  abbrev pub answered : String → List (Call W (Value N)) → W → Request (Value N) → W
  answered sub cs w r = (handle_submit lib p r (arrival sub cs w)).1

  -- How the form of the first call comes in: others have called the pending store meanwhile, but
  -- have not created the token again, and the form has the token, parses, has every required field,
  -- and is taken by the store.
  pub record Return (sub : String) (w : W) (cs : List (Call W (Value N))) (r : Request (Value N))
      (pending collected : Dict (Value N)) : Type 0 where
    pub listed : (created host lib float p elicit sub w).0 ≡ ok tt
    pub succeed : AllSucceed p.pending_store entry cs (created host lib float p elicit sub w).1
    pub fresh : made p.pending_store (token_of sub w) cs ≡ 0
    pub own_token : r.query "t" ≡ token_of sub w
    pub granted : Granted lib p r (arrival sub cs w) pending collected
    pub put : (stored_at lib p r (arrival sub cs w) pending collected).0 ≡ ok tt

  module _ {sub : String} {w : W} {cs : List (Call W (Value N))} {r : Request (Value N)}
      {pending collected : Dict (Value N)} (v : Return sub w cs r pending collected) where
    own_subject : string_at "sub" pending ≡ sub
    own_subject =
        pop_subject p.pending_store pendings fields_stored (token_of sub w) sub
          (pending_ttl host lib float p elicit) cs (drawn host lib float p elicit sub w).1 pending
          lasts v.listed v.succeed v.fresh
          (ap (λ k. (p.pending_store.pop k (arrival sub cs w)).0) (sym v.own_token)
            ∙ v.granted.popped)

    abbrev found : Dict (Value N)
    found = served lib p creds fields_kept still collected

    delivered : (p.creds_store.get sub (answered sub cs w r)).0 ≡ ok (some found)
    delivered =
        let it =
          handle_submit-delivers lib p creds fields_kept still r (arrival sub cs w) pending
            collected v.granted v.put in
        ground (arith, it, own_subject)

    -- End to end with failFast, for a user who has no credentials: the first call ends with an
    -- error that has the address of the form, with the token that the call drew, and leaves an
    -- entry. If the form of that token comes in later, as a `Return` says, a second call, in any
    -- state where the store answers as it did after the form, runs the tool with credentials that
    -- have, at each configured field, the text of the form, which is not blank where the field is
    -- required, and nothing else. The stores keep their contracts and the plain fields of an entry,
    -- the entry's time to live is one that lasts, and `SetResult` does not change what the store of
    -- credentials returns.
    pub require_credentials_retry :
        (session again : Session) (next : Tool host lib float p elicit) (ctx : Context (Value N))
        (user : User (Value N)) (s s' : Running W Session)
        → user_from_context ctx ≡ some user
        → user.sub ≡ sub
        → p.creds_store.get sub s.world ≡ (ok none, w)
        → (p.creds_store.get sub s'.world).0 ≡ (p.creds_store.get sub (answered sub cs w r)).0
        → (require_credentials host lib float p elicit true session next ctx s ≡ (
          err (
              elicitation_required (
                prompt host lib float p elicit
                  (token_of sub w)
                  (drawn host lib float p elicit sub w).0
                ∷ [])),
          record s { world = (created host lib float p elicit sub w).1 },
        ))
          × ((filled : Dict (Value N)) × ((k : String)
                → (lookup k filled ≡ collected_at lib r.form p.variables [] k)
                  × ((x : Variable)
                      → lookup k p.variables ≡ some x
                      → is_blank lib r.form k x ≡ false))
              × (require_credentials host lib float p elicit true again next ctx s'
                  ≡ next
                      (with_credentials ctx filled)
                      (record s' { world = (p.creds_store.get sub s'.world).1 })))
    unfolding require_credentials obtain_credentials build_fail_fast_error
    require_credentials_retry session again next ctx user s s' is own nothing lasting =
        let (saved, fields, good, bad) =
          (handle_submit_guard lib p r (arrival sub cs w)).0 pending collected v.granted in
        (
          ground (arith, is, own, nothing),
          (
            found,
            λ k. (
              lookup-served lib p creds fields_kept still r collected v.granted.complete k
                  ∙ (fields k).0,
              (fields k).1,
            ),
            ground (arith, is, own, lasting, delivered),
          ),
        )
