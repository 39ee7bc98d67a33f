-- ===== src/OauthProvider/Callback.antt =====
-- What `HandleCallback` of oauthprovider/oauthprovider.go stores, and when.
use mcp_authkit_go.Base.{String, true, false, ◌||◌, some, [], ◌∷◌, ◌≡◌, ◌≢◌, inl, inr}
use mcp_authkit_go.Base.{arith, eq_iff, ◌==◌, Bool-cases, Option-cases}
use mcp_authkit_go.Base.Dict.{Dict}
use mcp_authkit_go.Base.Int.{ℤ, pos}
use mcp_authkit_go.Base.Action.{Error, Result, ok, err, Result-cases}
use mcp_authkit_go.Host.{Host}
use mcp_authkit_go.Value.{KeepsPlain, Float64, Value, str, bool, GoMap, string_at}
use mcp_authkit_go.Store.{TokenStore, IsTokenStore}
use mcp_authkit_go.Store.File.{unix}
use mcp_authkit_go.Middleware.{Request}
use mcp_authkit_go.OauthProvider.{
  Provider, at_key, to_float, is_current, normalize_token_data, get_or_refresh_token, exchange,
  accept_code, report_error, handle_callback,
}
use mcp_authkit_go.OauthProvider.Tokens.{get_or_refresh-normalize}

module _ {W N : Type 0} (host : Host W) (float : Float64 N) (p : Provider W N) where
  -- What a callback must have for its token to be stored.
  pub record Granted (r : Request (Value N)) (w : W) (pending : Dict (Value N))
      (raw : GoMap (Value N)) : Type 0 where
    pub no_error : r.query "error" ≡ ""
    pub has_code : r.query "code" ≢ ""
    pub has_state : r.query "state" ≢ ""
    pub popped : (p.pending_store.pop (r.query "state") w).0 ≡ ok (some pending)
    pub exchanged :
        (p.exchange_code (r.query "code") (p.pending_store.pop (r.query "state") w).1).0 ≡ ok raw

  abbrev pub with_store : TokenStore W (Value N) → Provider W N
  with_store store = record p { token_store = store }

  -- the world when the code was exchanged
  abbrev pub exchanged_world : Request (Value N) → W → W
  exchanged_world r w =
      (p.exchange_code (r.query "code") (p.pending_store.pop (r.query "state") w).1).1

  -- the entry that is stored
  abbrev pub entry_of : Request (Value N) → W → GoMap (Value N) → GoMap (Value N)
  entry_of r w raw = some (normalize_token_data host float raw (host.now (exchanged_world r w)).0)

  -- the store's call
  abbrev pub stored_at :
      Request (Value N) → W → Dict (Value N) → GoMap (Value N) → Result (Unit {0}) × W
  stored_at r w pending raw =
      p.token_store.set (string_at "sub" pending) (entry_of r w raw)
        (host.now (exchanged_world r w)).1

  -- the result that a waiting tool call receives
  abbrev pub done_signal : Dict (Value N) → GoMap (Value N)
  done_signal pending =
      some (("sub", str (string_at "sub" pending)) ∷ ("_elicit_sent", bool false) ∷ [])

  -- A callback reaches the token store only with no error, a code, a state whose entry it pops, and
  -- a code that the provider takes. Then the normalised tokens are stored under the subject of the
  -- pending entry; if the store took them the waiting call is signalled and the answer is 200, and
  -- if not nobody is and the answer is 500. Any other callback gives the same answer and the same
  -- world whatever the token store is.
  pub handle_callback_guard :
      (r : Request (Value N)) (w : W)
      → ((pending : Dict (Value N)) (raw : GoMap (Value N))
          → Granted r w pending raw
          → let stored = stored_at r w pending raw in
            let answer = handle_callback host float p r w in
            (stored.0 ≡ ok tt
              → (answer.0.status ≡ 200)
                × (answer.1
                    ≡ (p.pending_store.set_result
                        (r.query "state")
                        (done_signal pending)
                        (pos 120)
                        stored.1).1))
            × ((e : Error) → stored.0 ≡ err e → (answer.0.status ≡ 500) × (answer.1 ≡ stored.1)))
        × (((pending : Dict (Value N)) (raw : GoMap (Value N)) → ¬ Granted r w pending raw)
            → (store : TokenStore W (Value N))
            → handle_callback host float p r w ≡ handle_callback host float (with_store store) r w)
  unfolding handle_callback report_error accept_code exchange
  handle_callback_guard r w =
      let state = eq_iff (r.query "state") "" in
      let code = eq_iff (r.query "code") "" in
      let error = eq_iff (r.query "error") "" in
      (
        λ pending raw g.
            let given : (r.query "code" == "" || r.query "state" == "") ≡ false =
              ground (arith, code, g.has_code, state, g.has_state) in
            (
              λ put. ground (arith, error, g.no_error, given, g.popped, g.exchanged, put),
              λ e bad. ground (arith, error, g.no_error, given, g.popped, g.exchanged, bad),
            ),
        λ free store. elim (Bool-cases (r.query "error" == "")) [
          | inr has_error ↦ ground arith
          | inl no_error ↦ elim (Bool-cases (r.query "code" == "" || r.query "state" == "")) [
            | inl missing ↦ ground arith
            | inr given ↦ elim (Result-cases (p.pending_store.pop (r.query "state") w).0) [
              | inr (e, bad) ↦ ground arith
              | inl (found, got) ↦ elim (Option-cases found) [
                | inl nothing ↦ ground arith
                | inr (pending, is) ↦
                    elim (Result-cases
                      (p.exchange_code (r.query "code")
                        (p.pending_store.pop (r.query "state") w).1).0) [
                          | inr (e, bad) ↦ ground arith
                          | inl (raw, good) ↦ absurd (
                              free pending raw (record {
                                no_error = ground (arith, error);
                                has_code = λ z. ground (arith, code);
                                has_state = λ z. ground (arith, state);
                                popped = cc (got, is);
                                exchanged = good;
                              }))
                        ]
              ]
            ]
          ]
        ],
      )

  -- The flow, end to end: after a callback whose token was stored, `getOrRefreshToken` of the
  -- subject of the pending entry returns the access token that the provider answered with, if the
  -- answer had one and a number of seconds to expiry, and as long as the expiry computed from that
  -- is current. The token store keeps its contract and the plain fields of an entry, and
  -- `SetResult` of the pending store does not change what `getOrRefreshToken` would answer.
  pub handle_callback-delivers :
      {kept : GoMap (Value N) → GoMap (Value N)}
      → IsTokenStore p.token_store kept
      → KeepsPlain kept
      → ((k sub : String) (m : GoMap (Value N)) (ttl : ℤ) (w : W)
          → (get_or_refresh_token host float p sub (p.pending_store.set_result k m ttl w).1).0
            ≡ (get_or_refresh_token host float p sub w).0)
      → (r : Request (Value N)) (w : W) (pending : Dict (Value N)) (raw : GoMap (Value N))
        (token : String) (seconds : N)
      → Granted r w pending raw
      → at_key "access_token" raw ≡ some (str token)
      → to_float host float (at_key "expires_in" raw) ≡ some seconds
      → let stored = stored_at r w pending raw in
        stored.0 ≡ ok tt
        → is_current host float
            (float.plus (float.of_int (unix (host.now (exchanged_world r w)).0)) seconds)
            (host.now (p.token_store.get (string_at "sub" pending) stored.1).1).0
          ≡ true
        → (get_or_refresh_token host float p
            (string_at "sub" pending)
            (handle_callback host float p r w).1).0
          ≡ ok token
  handle_callback-delivers contract same apart r w pending raw token seconds g access until put
        current =
      let sub = string_at "sub" pending in
      let stored = stored_at r w pending raw in
      let (_, left) = ((handle_callback_guard r w).0 pending raw g).0 put in
      let served =
        get_or_refresh-normalize host float p contract same sub token raw
          (host.now (exchanged_world r w)).0 seconds (host.now (exchanged_world r w)).1 access until
          put current in
      let moved = apart (r.query "state") sub (done_signal pending) (pos 120) stored.1 in
      ground (arith, left, moved, served)
