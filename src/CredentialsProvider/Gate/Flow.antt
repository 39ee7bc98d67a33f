-- ===== src/CredentialsProvider/Gate/Flow.antt =====
-- The flow of credentialsprovider/credentialsprovider.go from end to end: a tool call that has no
-- credentials asks the user, the form comes to `HandleSubmit` while the call waits, and the call
-- goes on.
use mcp_authkit_go.Base.{String, false, none, some, [], ◌≡◌, ◌≢◌, ◌∙◌, sym, ap, inr}
use mcp_authkit_go.Base.{arith, refl}
use mcp_authkit_go.Base.Int.{ℤ}
use mcp_authkit_go.Base.Dict.{Dict, lookup}
use mcp_authkit_go.Base.Action.{Action, ElicitParams, Result, ok}
use mcp_authkit_go.Host.{Host, Library}
use mcp_authkit_go.Value.{KeepsPlain, Float64, Value, GoMap, string_at, string_at-kept}
use mcp_authkit_go.Store.{IsTokenStore, IsPendingStore}
use mcp_authkit_go.Store.Subject.{entry_for}
use mcp_authkit_go.Middleware.{Context, User, user_from_context, Request}
use mcp_authkit_go.OauthProvider.Gate.{Running}
use mcp_authkit_go.CredentialsProvider.{generate_id, Provider, Variable, collect, handle_submit}
use mcp_authkit_go.CredentialsProvider.Deliver.{lookup-served, served, handle_submit-delivers}
use mcp_authkit_go.CredentialsProvider.Submit.{Granted, collected_at, is_blank, handle_submit_guard}
use mcp_authkit_go.CredentialsProvider.Gate.{
  Tool, prompt, pending_ttl, with_credentials, await_submission, elicit_credentials,
  ensure_credentials_blocking, obtain_credentials, require_credentials,
}

module _ {W N Session : Type 0} (host : Host W) (lib : Library) (float : Float64 N)
    (p : Provider W N) (elicit : Session → ElicitParams → Action W (Result String)) where
  -- the world in which a call of `ensureCredentialsBlocking` asks, and what it asks for
  module _ (sub : String) (w : W) where
    abbrev pub entry_token : String
    entry_token = (generate_id host lib 32 w).0

    abbrev pub drawn : String × W
    drawn = generate_id host lib 16 (generate_id host lib 32 w).1

    abbrev pub created : Result (Unit {0}) × W
    created =
        p.pending_store.create entry_token (entry_for sub) (pending_ttl host lib float p elicit)
          drawn.1

  -- How the form of a call comes in: the user accepts, and the browser's submission `r`, which has
  -- the call's entry token, is handled in a world `arrival` that still has the call's entry. The
  -- form parses and has every required field, the stores take what they are given, and the wait
  -- then receives a result.
  pub record Visit (entry : W → String → GoMap (Value N)) (session : Session) (sub : String) (w : W)
      (r : Request (Value N)) (arrival : W) (pending collected : Dict (Value N)) : Type 0 where
    pub has_token : entry_token sub w ≢ ""
    pub listed : (created sub w).0 ≡ ok tt
    pub still_there :
        entry arrival (entry_token sub w) ≡ entry (created sub w).1 (entry_token sub w)
    pub popped : entry arrival (entry_token sub w) ≡ some pending
    pub accepted :
        elicit session
          (prompt host lib float p elicit (entry_token sub w) (drawn sub w).0)
          (created sub w).1
        ≡ (ok "accept", (handle_submit lib p r arrival).1)
    pub own_token : r.query "t" ≡ entry_token sub w
    pub parsed : r.form_error ≡ ok tt
    pub complete : collect lib r.form p.variables [] ≡ inr collected
    pub put :
        (p.creds_store.set
          (string_at "sub" pending)
          (some collected)
          (p.pending_store.pop (r.query "t") arrival).1).0
        ≡ ok tt
    pub woken :
        (result : Dict (Value N)) × ((p.pending_store.wait_for_result
            (entry_token sub w)
            (float.seconds p.token_timeout)
            (handle_submit lib p r arrival).1).0
          ≡ ok (some result))

  module _ {Lasts : ℤ → Type 0} {kept stored : GoMap (Value N) → GoMap (Value N)}
      {entry : W → String → GoMap (Value N)} (creds : IsTokenStore p.creds_store kept)
      (fields_kept : KeepsPlain kept) (pendings : IsPendingStore p.pending_store Lasts stored entry)
      (fields_stored : KeepsPlain stored) (lasts : Lasts (pending_ttl host lib float p elicit))
      {session : Session} {sub : String} {w : W} {r : Request (Value N)} {arrival : W}
      {pending collected : Dict (Value N)}
      (v : Visit entry session sub w r arrival pending collected) where
    granted : Granted lib p r arrival pending collected
    granted = record {
      has_token = λ z. v.has_token (sym v.own_token ∙ z);
      popped =
          pendings.pop_lem (r.query "t") arrival
          ∙ ap (λ k. ok (entry arrival k)) v.own_token
          ∙ ap ok v.popped;
      parsed = v.parsed;
      complete = v.complete;
    }

    -- The entry of the call is handed to its form with the call's own subject.
    own_subject : string_at "sub" pending ≡ sub
    own_subject =
        let put =
          pendings.entry-create_self (entry_token sub w) (entry_for sub)
            (pending_ttl host lib float p elicit) (drawn sub w).1 lasts v.listed in
        string_at-kept stored "sub" sub pending fields_stored
          (ground (arith, put, v.still_there, v.popped))

    -- the world that the form leaves
    abbrev pub answered : W
    answered = (handle_submit lib p r arrival).1

    module _
        (still : (k sub : String) (m : GoMap (Value N)) (ttl : ℤ) (w : W)
          → (p.creds_store.get sub (p.pending_store.set_result k m ttl w).1).0
            ≡ (p.creds_store.get sub w).0)
        (waits : (p.creds_store.get sub
            (p.pending_store.wait_for_result
              (entry_token sub w)
              (float.seconds p.token_timeout)
              answered).1).0
          ≡ (p.creds_store.get sub answered).0) where
      -- the form's values, as the store gives them back
      abbrev found : Dict (Value N)
      found = served lib p creds fields_kept still collected

      delivered : (p.creds_store.get sub answered).0 ≡ ok (some found)
      delivered =
          let it =
            handle_submit-delivers lib p creds fields_kept still r arrival pending collected granted
              v.put in
          ground (arith, it, own_subject)

      ensure_credentials_blocking-Visit :
          (s : Running W Session)
          → s.world ≡ w
          → (ensure_credentials_blocking host lib float p elicit session sub s).0 ≡ ok (some found)
      unfolding ensure_credentials_blocking elicit_credentials await_submission
      ensure_credentials_blocking-Visit s at =
          ground (arith, at, v.listed, v.accepted, v.woken.1, waits, delivered)

      -- End to end, where no credentials are stored for the user in the context: if the form of the
      -- call comes in while it waits, as a `Visit` says, `RequireCredentials` calls the tool with
      -- credentials that have, at each configured field, the text of the form, which is not blank
      -- where the field is required, and nothing else. The stores keep their contracts and the
      -- plain fields of an entry (texts, booleans, floats and null), the time to live of the call's
      -- entry is one that lasts, and `SetResult` of the pending store, and the call's
      -- `WaitForResult`, do not change what the credential store returns.
      pub require_credentials-Visit :
          (next : Tool host lib float p elicit) (ctx : Context (Value N)) (user : User (Value N))
          (s : Running W Session)
          → user_from_context ctx ≡ some user
          → user.sub ≡ sub
          → p.creds_store.get sub s.world ≡ (ok none, w)
          → (creds : Dict (Value N)) × ((k : String)
              → (lookup k creds ≡ collected_at lib r.form p.variables [] k)
                × ((x : Variable)
                    → lookup k p.variables ≡ some x
                    → is_blank lib r.form k x ≡ false))
            × (require_credentials host lib float p elicit false session next ctx s
                ≡ next
                    (with_credentials ctx creds)
                    (ensure_credentials_blocking host lib float p elicit session sub
                      (record s { world = w })).1)
      unfolding require_credentials obtain_credentials
      require_credentials-Visit next ctx user s is own nothing =
          let it = ensure_credentials_blocking-Visit (record s { world = w }) refl in
          let (saved, fields, good, bad) =
            (handle_submit_guard lib p r arrival).0 pending collected granted in
          (
            found,
            λ k. (
              lookup-served lib p creds fields_kept still r collected v.complete k ∙ (fields k).0,
              (fields k).1,
            ),
            ground (arith, is, own, nothing, it),
          )
