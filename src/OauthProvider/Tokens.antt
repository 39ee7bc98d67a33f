-- ===== src/OauthProvider/Tokens.antt =====
-- What `normalizeTokenData` and `getOrRefreshToken` of oauthprovider/oauthprovider.go guarantee.
use mcp_authkit_go.Base.{String, true, false, none, some, ◌≡◌, ◌≢◌, inl, inr, refl, arith}
use mcp_authkit_go.Base.{eq_iff, ◌==◌, ap, ◌∙◌, if◌then◌else◌, Bool-cases, Option-cases}
use mcp_authkit_go.Base.Int.{ℤ}
use mcp_authkit_go.Base.Dict.{Dict, lookup, insert, lookup-insert}
use mcp_authkit_go.Base.Action.{Action, Result, ok, Result-cases}
use mcp_authkit_go.Host.{Host}
use mcp_authkit_go.Value.{
  KeepsPlain, Float64, Value, str, float64, int64, GoMap, string_at, as_float,
}
use mcp_authkit_go.Store.{IsTokenStore}
use mcp_authkit_go.Store.File.{unix}
use mcp_authkit_go.OauthProvider.{
  Provider, at_key, to_float, normalize_token_data, lacks_refresh, refreshed_entry, is_current,
  refresh, use_token, get_or_refresh_token,
}

module _ {W N : Type 0} (host : Host W) (float : Float64 N) where
  -- The fields of a normalised entry: the tokens as they came, the time of storing, and the expiry
  -- where the answer had a number of seconds.
  pub lookup-normalize_token_data :
      (raw : GoMap (Value N)) (now : ℤ)
      → let entry = normalize_token_data host float raw now in
        (lookup "access_token" entry ≡ at_key "access_token" raw)
        × (lookup "refresh_token" entry ≡ at_key "refresh_token" raw)
        × (lookup "stored_at" entry ≡ some (int64 (unix now)))
        × (lookup "expires_at" entry ≡ (elim (to_float host float (at_key "expires_in" raw)) [
          | none ↦ none
          | some s ↦ some (float64 (float.plus (float.of_int (unix now)) s))
        ]))
  unfolding normalize_token_data lookup insert
  lookup-normalize_token_data raw now = ground arith

  -- The entry that a refresh stores has a refresh token: the new one, or the old one where the
  -- answer had none, a null or an empty one.
  pub refreshed_entry-refresh_token :
      (old : String) (raw : GoMap (Value N)) (now : ℤ)
      → old ≢ ""
      → let entry = refreshed_entry host float old raw now in
        (lacks_refresh host float (lookup "refresh_token" entry) ≡ false)
        × (lookup "refresh_token" entry ≡ (
            if lacks_refresh host float (at_key "refresh_token" raw)
            then some (str old)
            else at_key "refresh_token" raw))
        × (lookup "access_token" entry ≡ at_key "access_token" raw)
  unfolding refreshed_entry
  refreshed_entry-refresh_token old raw now set =
      let entry = normalize_token_data host float raw now in
      let (access, rt, _, _) = lookup-normalize_token_data raw now in
      let new = str old in
      elim (Bool-cases (lacks_refresh host float (at_key "refresh_token" raw))) [
        | inl lacks ↦
            let lacking : lacks_refresh host float (lookup "refresh_token" entry) ≡ true =
              ap (lacks_refresh host float) rt ∙ lacks in
            let same : refreshed_entry host float old raw now ≡ insert "refresh_token" new entry =
              ground arith in
            let put = lookup-insert "refresh_token" "refresh_token" new entry in
            let other = lookup-insert "refresh_token" "access_token" new entry in
            rw same (rw put (ground (arith, eq_iff old ""), ground (arith, lacks), other ∙ access))
        | inr has ↦
            let having : lacks_refresh host float (lookup "refresh_token" entry) ≡ false =
              ap (lacks_refresh host float) rt ∙ has in
            let same : refreshed_entry host float old raw now ≡ entry = ground arith in
            rw same (having, rt ∙ ground (arith, has), access)
      ]

  module _ (p : Provider W N) where
    -- Where the token of a subject came from: it is stored and current, or a refresh returned it
    -- and its entry is stored, with a refresh token for the next time.
    pub data Source (sub : String) (w : W) (token : String) : Type 0 where
      stored :
          (m : Dict (Value N))
          → (p.token_store.get sub w).0 ≡ ok (some m)
          → ((x : N)
              → as_float (lookup "expires_at" m) ≡ some x
              → is_current host float x (host.now (p.token_store.get sub w).1).0 ≡ true)
          → string_at "access_token" m ≡ token
          → Source sub w token
      refreshed :
          (m : Dict (Value N)) (old : String) (fn : String → Action W (Result (GoMap (Value N))))
          (raw : GoMap (Value N)) (now : ℤ) (before asked : W)
          → (p.token_store.get sub w).0 ≡ ok (some m)
          → string_at "refresh_token" m ≡ old
          → p.refresh_token_fn ≡ some fn
          → (fn old asked).0 ≡ ok raw
          → (p.token_store.set sub (some (refreshed_entry host float old raw now)) before).0 ≡ ok tt
          → lacks_refresh host float
              (lookup "refresh_token" (refreshed_entry host float old raw now))
            ≡ false
          → string_at "access_token" (refreshed_entry host float old raw now) ≡ token
          → Source sub w token

    refresh-Source :
        (sub old : String) (fn : String → Action W (Result (GoMap (Value N)))) (w w0 : W)
        (token : String) (m : Dict (Value N))
        → (p.token_store.get sub w0).0 ≡ ok (some m)
        → string_at "refresh_token" m ≡ old
        → p.refresh_token_fn ≡ some fn
        → old ≢ ""
        → token ≢ ""
        → (refresh host float p sub old fn w).0 ≡ ok token
        → Source sub w0 token
    unfolding refresh
    refresh-Source sub old fn w w0 token m got held has set real e =
        elim (Result-cases (fn old w).0) [
          | inr (x, bad) ↦ absurd (ground arith)
          | inl (raw, good) ↦
              let w1 = (fn old w).1 in
              let now = (host.now w1).0 in
              let w2 = (host.now w1).1 in
              let entry = refreshed_entry host float old raw now in
              elim (Result-cases (p.token_store.set sub (some entry) w2).0) [
                | inr (x, bad) ↦ absurd (ground arith)
                | inl (_, put) ↦
                    refreshed m old fn raw now w2 w got held has good put
                      (refreshed_entry-refresh_token old raw now set).0 (ground arith)
              ]
        ]

    use_token-Source :
        (sub : String) (m : Dict (Value N)) (w0 : W) (token : String)
        → (p.token_store.get sub w0).0 ≡ ok (some m)
        → token ≢ ""
        → (use_token host float p sub m (p.token_store.get sub w0).1).0 ≡ ok token
        → Source sub w0 token
    unfolding use_token
    use_token-Source sub m w0 token found real e =
        let w = (p.token_store.get sub w0).1 in
        elim (Option-cases (as_float (lookup "expires_at" m))) [
          | inl forever ↦ stored m found (λ x f. cc (forever, f)) (ground arith)
          | inr (x, until) ↦
              let now = (host.now w).0 in
              let w1 = (host.now w).1 in
              elim (Bool-cases (is_current host float x now)) [
                | inl current ↦
                    stored m found (λ y f. ground (arith, until, current)) (ground arith)
                | inr late ↦ elim (Option-cases p.refresh_token_fn) [
                  | inl missing ↦ absurd (ground arith)
                  | inr (fn, has) ↦
                      let old = string_at "refresh_token" m in
                      elim (Bool-cases (old == "")) [
                        | inl blank ↦ absurd (ground arith)
                        | inr set ↦
                            refresh-Source sub old fn w1 w0 token m found refl has
                              (λ z. ground (arith, eq_iff old "")) real (ground arith)
                      ]
                ]
              ]
        ]

    -- A token that `getOrRefreshToken` returns, and that is not empty, was stored and has no expiry
    -- or is current with the buffer of 30 seconds, or it comes from a refresh whose entry was
    -- stored.
    pub get_or_refresh_token-Source :
        (sub : String) (w : W) (token : String)
        → token ≢ ""
        → (get_or_refresh_token host float p sub w).0 ≡ ok token
        → Source sub w token
    unfolding get_or_refresh_token
    get_or_refresh_token-Source sub w token real e =
        elim (Result-cases (p.token_store.get sub w).0) [
          | inr (x, bad) ↦ absurd (ground arith)
          | inl (found, got) ↦ elim (Option-cases found) [
            | inl nothing ↦ absurd (ground arith)
            | inr (m, is) ↦ use_token-Source sub m w token (got ∙ ap ok is) real (ground arith)
          ]
        ]

    -- A token that was just obtained serves at once: with a store that keeps its contract and the
    -- plain fields of an entry, `getOrRefreshToken` returns the access token that was stored at
    -- time `t`, without a refresh, as long as the expiry computed from it is current.
    pub get_or_refresh-normalize :
        {kept : GoMap (Value N) → GoMap (Value N)}
        → IsTokenStore p.token_store kept
        → KeepsPlain kept
        → (sub token : String) (raw : GoMap (Value N)) (t : ℤ) (seconds : N) (w : W)
        → at_key "access_token" raw ≡ some (str token)
        → to_float host float (at_key "expires_in" raw) ≡ some seconds
        → (p.token_store.set sub (some (normalize_token_data host float raw t)) w).0 ≡ ok tt
        → let w' = (p.token_store.set sub (some (normalize_token_data host float raw t)) w).1 in
          is_current host float
              (float.plus (float.of_int (unix t)) seconds)
              (host.now (p.token_store.get sub w').1).0
            ≡ true
          → (get_or_refresh_token host float p sub w').0 ≡ ok token
    unfolding get_or_refresh_token use_token string_at
    get_or_refresh-normalize {kept} contract same sub token raw t seconds w access until put
          current =
        let entry = normalize_token_data host float raw t in
        let (at_access, _, _, at_expiry) = lookup-normalize_token_data raw t in
        let got = contract.get-set_self sub (some entry) w put in
        let (m, back, plain, free) = same entry in
        let expiry = float.plus (float.of_int (unix t)) seconds in
        let served : lookup "access_token" m ≡ some (str token) =
          plain "access_token" (str token) (ground (arith, at_access, access)) tt in
        let ends : lookup "expires_at" m ≡ some (float64 expiry) =
          plain "expires_at" (float64 expiry) (ground (arith, at_expiry, until)) tt in
        ground (arith, got, back, served, ends, current)
