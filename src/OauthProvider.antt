-- ===== src/OauthProvider.antt =====
-- oauthprovider/oauthprovider.go: the provider, its tokens and its callback. The world `W` holds
-- the stores, the clock and the network; what other goroutines and replicas do while a call waits
-- is part of what the waiting calls do to it.
pub mod Standard
pub mod Gate
pub mod Tokens
pub mod Callback
pub mod Pages
pub mod Subject
use mcp_authkit_go.Base.{
  ℕ, zero, suc, String, Bool, true, false, not, ◌||◌, ◌&&◌, Option, none, some, List, [], ◌∷◌,
}
use mcp_authkit_go.Base.{◌==◌, ◌<>◌, if◌then◌else◌}
use mcp_authkit_go.Base.Int.{ℤ, pos, ◌+ℤ◌, wrap_64}
use mcp_authkit_go.Base.Dict.{Dict, lookup, insert, remove}
use mcp_authkit_go.Base.Action.{
  Action, ElicitParams, Error, message, wrapped, elicitation_required, Result, ok, err, pure, ◌>>=◌,
  ◌>>◌,
}
use mcp_authkit_go.Host.{Host, Library, Bytes, zeros}
use mcp_authkit_go.Http.{Response}
use mcp_authkit_go.Value.{
  Float64, Value, null, str, bool, float64, int, int64, GoMap, string_at, as_float,
}
use mcp_authkit_go.Store.{TokenStore, PendingStore}
use mcp_authkit_go.Store.File.{unix}
use mcp_authkit_go.Middleware.{Request}

pub record Provider (W N : Type 0) : Type 0 where
  pub name : String
  pub build_auth_url : String → String → String
  pub exchange_code : String → Action W (Result (GoMap (Value N)))
  pub redirect_uri : String
  pub callback_path : String
  pub token_store : TokenStore W (Value N)
  pub pending_store : PendingStore W N (Value N)
  pub refresh_token_fn : Option (String → Action W (Result (GoMap (Value N))))
  -- nanoseconds
  pub token_timeout : ℤ

-- m[k] of a map that may be nil
abbrev pub at_key : {V : Type 0} → String → GoMap V → Option V
at_key k none = none
at_key k (some m) = lookup k m

-- The error of rand.Read is dropped, and the buffer is as it was made.
unfoldable pub generate_id : {W : Type 0} → Host W → Library → ℕ → Action W String
generate_id host lib byte_len = do
  drawn ← host.random byte_len
  pure (lib.hex (elim drawn [ ok b ↦ b | err _ ↦ zeros byte_len ]))

abbrev pub page : String → String → String
page title text =
    "<!DOCTYPE html><html><head><title>" <> title <> "</title></head><body><h1>" <> title
    <> "</h1><p>" <> text <> "</p></body></html>"

unfoldable pub write_callback_page : ℕ → String → String → Response String
write_callback_page status title text = record {
  status = status;
  headers = ("Content-Type", "text/html; charset=utf-8") ∷ [];
  body = page title text;
}

module _ {W N : Type 0} (host : Host W) (float : Float64 N) where
  unfoldable pub to_float : Option (Value N) → Option N
  to_float (some (float64 x)) = some x
  to_float (some (int n)) = some (float.of_int n)
  to_float (some (int64 n)) = some (float.of_int n)
  to_float _ = none

  -- entry[key] = v where there is a v
  abbrev copy_field : String → GoMap (Value N) → Dict (Value N) → Dict (Value N)
  copy_field key raw entry = elim (at_key key raw) [ none ↦ entry | some v ↦ insert key v entry ]

  -- `now` in nanoseconds since the epoch
  unfoldable pub normalize_token_data : GoMap (Value N) → ℤ → Dict (Value N)
  unfolding to_float
  normalize_token_data raw now =
      let entry =
        insert "stored_at" (int64 (unix now))
          (copy_field "refresh_token" raw (copy_field "access_token" raw [])) in
      elim (to_float (at_key "expires_in" raw)) [
        | none ↦ entry
        | some expires_in ↦
            insert "expires_at" (float64 (float.plus (float.of_int (unix now)) expires_in)) entry
      ]

  -- entry["refresh_token"] == nil || entry["refresh_token"] == ""
  abbrev pub lacks_refresh : Option (Value N) → Bool
  lacks_refresh none = true
  lacks_refresh (some null) = true
  lacks_refresh (some (str s)) = s == ""
  lacks_refresh _ = false

  -- what a successful refresh stores
  unfoldable pub refreshed_entry : String → GoMap (Value N) → ℤ → Dict (Value N)
  unfolding normalize_token_data
  refreshed_entry refresh_token refreshed now =
      let entry = normalize_token_data refreshed now in
      if lacks_refresh (lookup "refresh_token" entry)
      then insert "refresh_token" (str refresh_token) entry
      else entry

  -- float64(time.Now().Unix())+expiryBufferSeconds < expiresAt
  abbrev pub is_current : N → ℤ → Bool
  is_current expires_at now =
      float.less (float.plus (float.of_int (unix now)) (float.of_int (pos 30))) expires_at

  -- !hasExpiry || …, which reads the clock only where there is an expiry
  abbrev pub check_current : Option N → Action W Bool
  check_current none = pure true
  check_current (some expires_at) = do now ← host.now; pure (is_current expires_at now)

  module _ (p : Provider W N) where
    -- from the refresh on
    unfoldable pub refresh :
        String → String → (String → Action W (Result (GoMap (Value N)))) → Action W (Result String)
    refresh sub refresh_token refresh_fn = do
      answer ← refresh_fn refresh_token
      elim answer [
        | err _ ↦ do p.token_store.delete sub; pure (ok "")
        | ok refreshed ↦ do
          now ← host.now
          let entry = refreshed_entry refresh_token refreshed now
          stored ← p.token_store.set sub (some entry)
          pure (elim stored [ err e ↦ err e | ok _ ↦ ok (string_at "access_token" entry) ])
      ]

    -- `getOrRefreshToken` with the data that is stored
    unfoldable pub use_token : String → Dict (Value N) → Action W (Result String)
    unfolding refresh
    use_token sub token_data = do
      current ← check_current (as_float (lookup "expires_at" token_data))
      elim current [
        | true ↦ pure (ok (string_at "access_token" token_data))
        | false ↦
            if string_at "refresh_token" token_data == ""
            then pure (ok "")
            else elim p.refresh_token_fn [
              | none ↦ pure (ok "")
              | some refresh_fn ↦ refresh sub (string_at "refresh_token" token_data) refresh_fn
            ]
      ]

    unfoldable pub get_or_refresh_token : String → Action W (Result String)
    unfolding use_token
    get_or_refresh_token sub = do
      found ← p.token_store.get sub
      elim found [
        | err e ↦ pure (err e)
        | ok none ↦ pure (ok "")
        | ok (some token_data) ↦ use_token sub token_data
      ]

    unfoldable pub invalidate_token : String → Action W (Result (Unit {0}))
    invalidate_token sub = p.token_store.delete sub

    -- int(p.tokenTimeout.Seconds())+60
    abbrev pub pending_ttl : ℤ
    pending_ttl = wrap_64 (float.to_int (float.seconds p.token_timeout) +ℤ pos 60)

    -- `HandleCallback` from the exchange on
    unfoldable pub exchange : String → String → String → Action W (Response String)
    unfolding normalize_token_data write_callback_page
    exchange sub code state = do
      answer ← p.exchange_code code
      elim answer [
        | err _ ↦ do
          p.pending_store.set_result state (some (("error", str "exchange_failed") ∷ [])) (pos 120)
          pure (write_callback_page 200 "Authorization failed" "token exchange failed")
        | ok token_data ↦ do
          now ← host.now
          stored ← p.token_store.set sub (some (normalize_token_data token_data now))
          elim stored [
            | err _ ↦ pure (write_callback_page 500 "Authorization failed" "storing token failed")
            | ok _ ↦ do
              p.pending_store.set_result state
                  (some (("sub", str sub) ∷ ("_elicit_sent", bool false) ∷ [])) (pos 120)
              pure (
                  write_callback_page 200 "Authorization successful"
                    "You can close this window and return to your MCP client.")
          ]
      ]

    -- `HandleCallback` from the code on
    unfoldable pub accept_code : String → String → Action W (Response String)
    unfolding exchange
    accept_code code state = do
      popped ← p.pending_store.pop state
      elim popped [
        | err _ ↦ pure (
            write_callback_page 400 "Authorization failed"
              "unknown or expired authorization request")
        | ok none ↦ pure (
            write_callback_page 400 "Authorization failed"
              "unknown or expired authorization request")
        | ok (some pending) ↦ exchange (string_at "sub" pending) code state
      ]

    -- `HandleCallback` where the query has an error
    unfoldable pub report_error : Request (Value N) → Action W (Response String)
    report_error r w =
        let shown =
          write_callback_page 200 "Authorization failed"
            (r.query "error" <> ": " <> r.query "error_description") in
        if not (r.query "state" == "")
        then (do
          p.pending_store.set_result (r.query "state") (some (("error", str "oauth_error") ∷ []))
              (pos 120)
          pure shown)
            w
        else (shown, w)

    unfoldable pub handle_callback : Request (Value N) → Action W (Response String)
    unfolding report_error accept_code
    handle_callback r =
        if not (r.query "error" == "")
        then report_error r
        else if r.query "code" == "" || r.query "state" == ""
        then pure (write_callback_page 400 "Authorization failed" "missing code or state parameter")
        else accept_code (r.query "code") (r.query "state")
