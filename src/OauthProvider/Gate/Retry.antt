-- ===== src/OauthProvider/Gate/Retry.antt =====
-- The fail-fast flow of oauthprovider/oauthprovider.go: a tool call that has no token ends with the
-- address to visit, the browser comes to `HandleCallback` later, and the user calls the tool again.
use mcp_authkit_go.Base.{String, true, List, some, [], ◌∷◌, ◌≡◌, ◌≢◌, ◌∙◌, sym, ap}
use mcp_authkit_go.Base.{arith, eq_iff}
use mcp_authkit_go.Base.Int.{ℤ}
use mcp_authkit_go.Base.Dict.{Dict}
use mcp_authkit_go.Base.Action.{Action, ElicitParams, elicitation_required, Result, ok, err}
use mcp_authkit_go.Host.{Host, Library}
use mcp_authkit_go.Value.{KeepsPlain, Float64, Value, str, GoMap, string_at}
use mcp_authkit_go.Store.{IsTokenStore, IsPendingStore}
use mcp_authkit_go.Store.Trace.{Call, made, AllSucceed}
use mcp_authkit_go.Store.Subject.{later, pop_subject}
use mcp_authkit_go.Store.File.{unix}
use mcp_authkit_go.Middleware.{Context, User, user_from_context, Request}
use mcp_authkit_go.OauthProvider.{
  Provider, at_key, to_float, is_current, pending_ttl, get_or_refresh_token, handle_callback,
}
use mcp_authkit_go.OauthProvider.Callback.{
  Granted, exchanged_world, stored_at, handle_callback-delivers,
}
use mcp_authkit_go.OauthProvider.Gate.{
  Running, with_token, Tool, prompt, build_fail_fast_error, obtain_token, require_token,
}
use mcp_authkit_go.OauthProvider.Gate.Flow.{state, drawn, created}

module _ {W N Session : Type 0} (host : Host W) (lib : Library) (float : Float64 N)
    (p : Provider W N) (elicit : Session → ElicitParams → Action W (Result String))
    {Lasts : ℤ → Type 0} {kept stored : GoMap (Value N) → GoMap (Value N)}
    {entry : W → String → GoMap (Value N)} (tokens : IsTokenStore p.token_store kept)
    (fields_kept : KeepsPlain kept) (pendings : IsPendingStore p.pending_store Lasts stored entry)
    (fields_stored : KeepsPlain stored) (lasts : Lasts (pending_ttl host float p)) where
  -- what the first call drew, and the world after its entry was created and the calls `cs` were
  -- made
  abbrev pub state_of : String → W → String
  state_of sub w = state host lib float p elicit sub w

  abbrev pub arrival : String → List (Call W (Value N)) → W → W
  arrival sub cs w =
      later p.pending_store pendings fields_stored (state_of sub w) sub (pending_ttl host float p)
        cs (drawn host lib float p elicit sub w).1

  abbrev pub answered : String → List (Call W (Value N)) → W → Request (Value N) → W
  answered sub cs w r = (handle_callback host float p r (arrival sub cs w)).1

  -- How the callback of the first call comes in: others have called the pending store meanwhile,
  -- but have not created the state again, the browser's request names the state, and the provider
  -- takes its code and answers with `raw`, which has a text for an access token and a number of
  -- seconds to expiry. The token store takes it, and the expiry computed from it is still current,
  -- with the buffer of 30 seconds, where the tokens are read once they are stored.
  pub record Return (sub : String) (w : W) (cs : List (Call W (Value N))) (r : Request (Value N))
      (raw : GoMap (Value N)) (token : String) (seconds : N) (pending : Dict (Value N))
      : Type 0 where
    pub listed : (created host lib float p elicit sub w).0 ≡ ok tt
    pub succeed : AllSucceed p.pending_store entry cs (created host lib float p elicit sub w).1
    pub fresh : made p.pending_store (state_of sub w) cs ≡ 0
    pub own_state : r.query "state" ≡ state_of sub w
    pub granted : Granted host float p r (arrival sub cs w) pending raw
    pub access : at_key "access_token" raw ≡ some (str token)
    pub until : to_float host float (at_key "expires_in" raw) ≡ some seconds
    pub put : (stored_at host float p r (arrival sub cs w) pending raw).0 ≡ ok tt
    pub current :
        is_current host float
          (float.plus
            (float.of_int (unix (host.now (exchanged_world host float p r (arrival sub cs w))).0))
            seconds)
          (host.now
            (p.token_store.get
              (string_at "sub" pending)
              (stored_at host float p r (arrival sub cs w) pending raw).1).1).0
        ≡ true

  module _ {sub : String} {w : W} {cs : List (Call W (Value N))} {r : Request (Value N)}
      {raw : GoMap (Value N)} {token : String} {seconds : N} {pending : Dict (Value N)}
      (v : Return sub w cs r raw token seconds pending)
      (still : (k sub : String) (m : GoMap (Value N)) (ttl : ℤ) (w : W)
        → (get_or_refresh_token host float p sub (p.pending_store.set_result k m ttl w).1).0
          ≡ (get_or_refresh_token host float p sub w).0) where
    own_subject : string_at "sub" pending ≡ sub
    own_subject =
        pop_subject p.pending_store pendings fields_stored (state_of sub w) sub
          (pending_ttl host float p) cs (drawn host lib float p elicit sub w).1 pending lasts
          v.listed v.succeed v.fresh
          (ap (λ k. (p.pending_store.pop k (arrival sub cs w)).0) (sym v.own_state)
            ∙ v.granted.popped)

    delivered : (get_or_refresh_token host float p sub (answered sub cs w r)).0 ≡ ok token
    delivered =
        let it =
          handle_callback-delivers host float p tokens fields_kept still r (arrival sub cs w)
            pending raw token seconds v.granted v.access v.until v.put v.current in
        ground (arith, it, own_subject)

    -- End to end with failFast, for a user in the context for whom `getOrRefreshToken` answers with
    -- an empty token: the first call ends with an error that has the address to visit, with the
    -- state that the call drew, and leaves an entry. If the callback of that state comes in later,
    -- a second call, in any state where `getOrRefreshToken` answers as it would right after the
    -- callback, runs the tool with the access token that the provider answered with, if that is not
    -- empty. As a `Return` says, the entry is created, every other call of Create on the pending
    -- store succeeds and none is of that state; the callback names the state, which is not empty,
    -- pops the entry, and has a code and no error; the provider's answer has a text for an access
    -- token and a number for expires_in, and the expiry computed from it is still current with the
    -- buffer of 30 seconds where the tokens are read once they are stored; and the token store
    -- takes them. The stores keep their contracts and the plain fields of an entry (texts,
    -- booleans, floats and null), time takes entries off at most, the entry's time to live is one
    -- that lasts, and `SetResult` does not change what `getOrRefreshToken` would answer.
    pub require_token_retry :
        (session again : Session) (next : Tool host lib float p elicit) (ctx : Context (Value N))
        (user : User (Value N)) (s s' : Running W Session)
        → user_from_context ctx ≡ some user
        → user.sub ≡ sub
        → get_or_refresh_token host float p sub s.world ≡ (ok "", w)
        → token ≢ ""
        → (get_or_refresh_token host float p sub s'.world).0
          ≡ (get_or_refresh_token host float p sub (answered sub cs w r)).0
        → (require_token host lib float p elicit true session next ctx s ≡ (
          err (
              elicitation_required (
                prompt host lib float p elicit
                  (p.build_auth_url (state_of sub w) p.redirect_uri)
                  (drawn host lib float p elicit sub w).0
                ∷ [])),
          record s { world = (created host lib float p elicit sub w).1 },
        ))
          × (require_token host lib float p elicit true again next ctx s'
              ≡ next
                  (with_token ctx token)
                  (record s' { world = (get_or_refresh_token host float p sub s'.world).1 }))
    unfolding require_token obtain_token build_fail_fast_error
    require_token_retry session again next ctx user s s' is own nothing real lasting = (
      ground (arith, is, own, nothing, eq_iff "" ""),
      ground (arith, is, own, lasting, delivered, eq_iff token ""),
    )
