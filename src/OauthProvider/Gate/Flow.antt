-- ===== src/OauthProvider/Gate/Flow.antt =====
-- The flow of oauthprovider/oauthprovider.go from end to end: a tool call that has no token asks
-- the user, the browser comes to `HandleCallback` while the call waits, and the call goes on.
use mcp_authkit_go.Base.{String, true, false, some, [], ◌∷◌, ◌≡◌, ◌≢◌, ◌∙◌, sym, ap}
use mcp_authkit_go.Base.{arith, eq_iff, refl}
use mcp_authkit_go.Base.Int.{ℤ}
use mcp_authkit_go.Base.Dict.{Dict}
use mcp_authkit_go.Base.Action.{Action, ElicitParams, Result, ok}
use mcp_authkit_go.Host.{Host, Library}
use mcp_authkit_go.Value.{KeepsPlain, Float64, Value, str, GoMap, string_at, string_at-kept}
use mcp_authkit_go.Store.{IsTokenStore, IsPendingStore}
use mcp_authkit_go.Store.File.{unix}
use mcp_authkit_go.Middleware.{Context, User, user_from_context, Request}
use mcp_authkit_go.OauthProvider.{
  Provider, at_key, to_float, is_current, generate_id, pending_ttl, get_or_refresh_token,
  handle_callback,
}
use mcp_authkit_go.OauthProvider.Callback.{
  Granted, exchanged_world, stored_at, handle_callback-delivers,
}
use mcp_authkit_go.OauthProvider.Gate.{
  Running, with_token, Tool, prompt, await_callback, elicit_token, ensure_token_blocking,
  obtain_token, require_token,
}

module _ {W N Session : Type 0} (host : Host W) (lib : Library) (float : Float64 N)
    (p : Provider W N) (elicit : Session → ElicitParams → Action W (Result String)) where
  -- the world in which a call of `ensureTokenBlocking` asks, and what it asks for
  module _ (sub : String) (w : W) where
    abbrev pub state : String
    state = (generate_id host lib 24 w).0

    abbrev pub drawn : String × W
    drawn = generate_id host lib 16 (generate_id host lib 24 w).1

    abbrev pub created : Result (Unit {0}) × W
    created =
        p.pending_store.create state (some (("sub", str sub) ∷ [])) (pending_ttl host float p)
          drawn.1

  -- How the callback of a call comes in: the user accepts, and the browser's request `r`, which
  -- names the call's state, is handled in a world `arrival` that still has the call's entry. The
  -- provider takes its code and answers with `raw`, which has a text for an access token and a
  -- number of seconds to expiry, the stores take what they are given and the wait then receives a
  -- result. The expiry computed from the answer is still current, with the buffer of 30 seconds,
  -- where the tokens are read once they are stored.
  pub record Visit (entry : W → String → GoMap (Value N)) (session : Session) (sub : String) (w : W)
      (r : Request (Value N)) (arrival : W) (raw : GoMap (Value N)) (token : String) (seconds : N)
      (pending : Dict (Value N)) : Type 0 where
    pub has_state : state sub w ≢ ""
    pub listed : (created sub w).0 ≡ ok tt
    pub still_there : entry arrival (state sub w) ≡ entry (created sub w).1 (state sub w)
    pub popped : entry arrival (state sub w) ≡ some pending
    pub accepted :
        elicit session
          (prompt host lib float p elicit
            (p.build_auth_url (state sub w) p.redirect_uri)
            (drawn sub w).0)
          (created sub w).1
        ≡ (ok "accept", (handle_callback host float p r arrival).1)
    pub no_error : r.query "error" ≡ ""
    pub has_code : r.query "code" ≢ ""
    pub own_state : r.query "state" ≡ state sub w
    pub exchanged :
        (p.exchange_code (r.query "code") (p.pending_store.pop (r.query "state") arrival).1).0
        ≡ ok raw
    pub access : at_key "access_token" raw ≡ some (str token)
    pub until : to_float host float (at_key "expires_in" raw) ≡ some seconds
    pub put : (stored_at host float p r arrival pending raw).0 ≡ ok tt
    pub woken :
        (result : Dict (Value N)) × ((p.pending_store.wait_for_result
            (state sub w)
            (float.seconds p.token_timeout)
            (handle_callback host float p r arrival).1).0
          ≡ ok (some result))
    pub current :
        is_current host float
          (float.plus
            (float.of_int (unix (host.now (exchanged_world host float p r arrival)).0))
            seconds)
          (host.now
            (p.token_store.get
              (string_at "sub" pending)
              (stored_at host float p r arrival pending raw).1).1).0
        ≡ true

  module _ {Lasts : ℤ → Type 0} {kept stored : GoMap (Value N) → GoMap (Value N)}
      {entry : W → String → GoMap (Value N)} (tokens : IsTokenStore p.token_store kept)
      (fields_kept : KeepsPlain kept) (pendings : IsPendingStore p.pending_store Lasts stored entry)
      (fields_stored : KeepsPlain stored) (lasts : Lasts (pending_ttl host float p))
      {session : Session} {sub : String} {w : W} {r : Request (Value N)} {arrival : W}
      {raw : GoMap (Value N)} {token : String} {seconds : N} {pending : Dict (Value N)}
      (v : Visit entry session sub w r arrival raw token seconds pending) where
    granted : Granted host float p r arrival pending raw
    granted = record {
      no_error = v.no_error;
      has_code = v.has_code;
      has_state = λ z. v.has_state (sym v.own_state ∙ z);
      popped =
          pendings.pop_lem (r.query "state") arrival
          ∙ ap (λ k. ok (entry arrival k)) v.own_state
          ∙ ap ok v.popped;
      exchanged = v.exchanged;
    }

    -- The entry of the call is handed to its callback with the call's own subject.
    own_subject : string_at "sub" pending ≡ sub
    own_subject =
        let m = ("sub", str sub) ∷ [] in
        let put =
          pendings.entry-create_self (state sub w) (some m) (pending_ttl host float p)
            (drawn sub w).1 lasts v.listed in
        let kept : stored (some m) ≡ some pending = ground (arith, put, v.still_there, v.popped) in
        string_at-kept stored "sub" sub pending fields_stored kept

    module _
        (still : (k sub : String) (m : GoMap (Value N)) (ttl : ℤ) (w : W)
          → (get_or_refresh_token host float p sub (p.pending_store.set_result k m ttl w).1).0
            ≡ (get_or_refresh_token host float p sub w).0)
        (waits : (k sub : String) (n : N) (w : W)
          → (get_or_refresh_token host float p sub (p.pending_store.wait_for_result k n w).1).0
            ≡ (get_or_refresh_token host float p sub w).0) where
      abbrev answered : W
      answered = (handle_callback host float p r arrival).1

      delivered : (get_or_refresh_token host float p sub answered).0 ≡ ok token
      delivered =
          let it =
            handle_callback-delivers host float p tokens fields_kept still r arrival pending raw
              token seconds granted v.access v.until v.put v.current in
          ground (arith, it, own_subject)

      await_callback-Visit :
          (await_callback host lib float p elicit sub (state sub w) answered).0 ≡ ok token
      unfolding await_callback
      await_callback-Visit =
          let it = waits (state sub w) sub (float.seconds p.token_timeout) answered in
          ground (arith, v.woken.1, it, delivered)

      elicit_token-Visit :
          (elicit_token host lib float p elicit session sub
            (state sub w)
            (drawn sub w).0
            (created sub w).1).0
          ≡ ok token
      unfolding elicit_token
      elicit_token-Visit = ground (arith, v.accepted, await_callback-Visit)

      ensure_token_blocking-Visit :
          (s : Running W Session)
          → s.world ≡ w
          → (ensure_token_blocking host lib float p elicit session sub s).0 ≡ ok token
      unfolding ensure_token_blocking
      ensure_token_blocking-Visit s at = ground (arith, at, v.listed, elicit_token-Visit)

      -- End to end without failFast, for a user in the context for whom `getOrRefreshToken` answers
      -- with an empty token: if the callback of the call comes in while it waits, `RequireToken`
      -- calls the tool with the access token that the provider answered with, if that is not empty.
      -- As a `Visit` says, the user accepts, the entry of the call is created and still there when
      -- the callback comes, which names the drawn state, not an empty one, and has a code and no
      -- error; the provider's answer has a text for an access token and a number for expires_in,
      -- and the expiry computed from it is still current with the buffer of 30 seconds where the
      -- tokens are read once they are stored; the token store takes them, and the wait receives a
      -- result. Both stores keep their contracts and the plain fields of an entry (texts, booleans,
      -- floats and null), the time to live of the call's entry is one that lasts, and `SetResult`
      -- and `WaitForResult` do not change what `getOrRefreshToken` would answer.
      pub require_token-Visit :
          (next : Tool host lib float p elicit) (ctx : Context (Value N)) (user : User (Value N))
          (s : Running W Session)
          → user_from_context ctx ≡ some user
          → user.sub ≡ sub
          → get_or_refresh_token host float p sub s.world ≡ (ok "", w)
          → token ≢ ""
          → require_token host lib float p elicit false session next ctx s
            ≡ next
                (with_token ctx token)
                (ensure_token_blocking host lib float p elicit session sub
                  (record s { world = w })).1
      unfolding require_token obtain_token
      require_token-Visit next ctx user s is own nothing real =
          let it = ensure_token_blocking-Visit (record s { world = w }) refl in
          ground (arith, is, own, nothing, it, eq_iff token "", eq_iff "" "")
