-- ===== src/CredentialsProvider/OnRedis/Retry.antt =====
-- The fail-fast flow of credentialsprovider/credentialsprovider.go over the two stores of
-- store/redis.go, of one server: the replica that is called, the one that gets the form and the one
-- that is called again may be three.
use mcp_authkit_go.Base.Text.{occurs}
use mcp_authkit_go.Base.{
  ℕ, String, true, false, none, some, List, [], ◌∷◌, ◌≡◌, ◌≢◌, ap, sym, arith, inl, inr, length,
  if◌then◌else◌,
}
use mcp_authkit_go.Base.Dict.{Dict, lookup}
use mcp_authkit_go.Base.Int.{ℤ, pos, ltb_ℤ}
use mcp_authkit_go.Base.Action.{
  Action, ElicitParams, elicitation_required, Result, ok, err, Result-cases,
}
use mcp_authkit_go.Host.{Bytes, Host, Library, Json, IsAead, IsJson}
use mcp_authkit_go.Value.{KeepsPlain, Float64, Value, GoMap}
use mcp_authkit_go.Store.{IsTokenStore, IsPendingStore}
use mcp_authkit_go.Store.Encryption.{encrypt}
use mcp_authkit_go.Store.File.{safe_name}
use mcp_authkit_go.Store.Memory.{duration_seconds}
use mcp_authkit_go.Store.Trace.{Call}
use mcp_authkit_go.Store.Redis.{
  Client, RedisTokenStore, RedisPendingStore, redis_token_key, redis_pending_key, redis_done_key,
  Content, IsClient,
}
use mcp_authkit_go.Store.Redis.Keys.{token_apart_done}
use mcp_authkit_go.Store.Redis.Tokens.Laws.{get_lem, redis_token_store-IsTokenStore}
use mcp_authkit_go.Store.Redis.Pending.{set_result}
use mcp_authkit_go.Store.Redis.Pending.Entries.{entry_at, redis_pending_store-IsPendingStore}
use mcp_authkit_go.Middleware.{Context, User, user_from_context, Request}
use mcp_authkit_go.OauthProvider.Gate.{Running}
use mcp_authkit_go.CredentialsProvider.{Provider, Variable}
use mcp_authkit_go.CredentialsProvider.Submit.{collected_at, is_blank}
use mcp_authkit_go.CredentialsProvider.Gate.{Tool, prompt, with_credentials, require_credentials}
use mcp_authkit_go.CredentialsProvider.Gate.Flow.{drawn, created}
use mcp_authkit_go.CredentialsProvider.Gate.Retry.{
  Return, token_of, answered, require_credentials_retry,
}
use mcp_authkit_go.CredentialsProvider.OnRedis.{on_redis}

module _ {W N : Type 0} (host : Host W) (client : Client W) (lib : Library)
    (json : Json (GoMap (Value N))) (tokens : RedisTokenStore) (pendings : RedisPendingStore)
    (wait : String → N → Action W (Result (GoMap (Value N)))) (base : Provider W N)
    {content : W → Content} (h : IsClient client content)
    (set_local : (k j : String) (b : Bytes) (d : ℤ) (w : W)
      → k ≢ j
      → content (client.set k b d w).1 j ≡ content w j)
    (random_kept : (n : ℕ) (w : W) → content (host.random n w).1 ≡ content w)
    (colonless : (a : String) → occurs 58 (safe_name lib a) ≡ 0) where
  abbrev provider : Provider W N
  provider = on_redis host client lib json tokens pendings wait base

  -- A result that is set leaves what the token store returns alone.
  pub get-set_result :
      (k sub : String) (m : GoMap (Value N)) (ttl : ℤ) (w : W)
      → (provider.creds_store.get sub (provider.pending_store.set_result k m ttl w).1).0
        ≡ (provider.creds_store.get sub w).0
  unfolding set_result encrypt
  get-set_result k sub m ttl w =
      let key = redis_token_key lib tokens.prefix sub in
      let done_key = redis_done_key lib pendings.prefix k in
      let ne : done_key ≢ key =
        λ e. token_apart_done lib tokens.prefix pendings.prefix sub k colonless (sym e) in
      let w1 = (encrypt host json pendings.cipher m w).1 in
      let d = duration_seconds (if ltb_ℤ (pos 0) ttl then ttl else pos 120) in
      let kept : content w1 key ≡ content w key =
        ground
          (arith, ap (λ (c : Content). c key) (random_kept pendings.cipher.aead.nonce_size w)) in
      let left : content (provider.pending_store.set_result k m ttl w).1 key ≡ content w key =
        elim (Result-cases (encrypt host json pendings.cipher m w).0) [
          | inr (e, bad) ↦ ground (arith, kept)
          | inl (b, good) ↦ ground (arith, kept, set_local done_key key b d w1 ne)
        ] in
      let now = get_lem host client lib json tokens h random_kept sub in
      ground (arith, now (provider.pending_store.set_result k m ttl w).1, now w, left)

  module _ {stored : GoMap (Value N) → GoMap (Value N)} (tokens_aead : IsAead tokens.cipher.aead)
      (pendings_aead : IsAead pendings.cipher.aead) (js : IsJson json stored)
      (fields_stored : KeepsPlain stored)
      (full : (n : ℕ) (w : W) (b : Bytes) → (host.random n w).0 ≡ ok b → length b ≡ n)
      (tokens_apart : (a b : String)
        → a ≢ b
        → redis_token_key lib tokens.prefix a ≢ redis_token_key lib tokens.prefix b)
      (pendings_apart : (a b : String)
        → a ≢ b
        → redis_pending_key lib pendings.prefix a ≢ redis_pending_key lib pendings.prefix b) where
    pub creds : IsTokenStore provider.creds_store stored
    creds =
        redis_token_store-IsTokenStore host client lib json tokens h random_kept tokens_aead js full
          tokens_apart

    abbrev pub entry : W → String → GoMap (Value N)
    entry w = entry_at host client lib json pendings wait h set_local random_kept (content w)

    pub pending : IsPendingStore provider.pending_store (λ ttl. Unit) stored entry
    pending =
        redis_pending_store-IsPendingStore host client lib json pendings wait h set_local
          random_kept pendings_aead js full pendings_apart

    module _ {Session : Type 0} (float : Float64 N)
        (elicit : Session → ElicitParams → Action W (Result String)) where
      -- How the form of the first call comes in, and the world that it leaves.
      abbrev pub ReturnHere :
          String
          → W
          → List (Call W (Value N))
          → Request (Value N)
          → Dict (Value N)
          → Dict (Value N)
          → Type 0
      ReturnHere =
          Return host lib float provider elicit creds fields_stored pending fields_stored tt
            get-set_result

      abbrev pub answered_here : String → List (Call W (Value N)) → W → Request (Value N) → W
      answered_here =
          answered host lib float provider elicit creds fields_stored pending fields_stored tt
            get-set_result

      -- End to end with failFast over one Redis server, whatever the prefixes of its two stores,
      -- for a user who has no credentials: the first call ends with an error that has the address
      -- of the form, with the token that the call drew. If the form of that token comes in later,
      -- as a `Return` says, a second call, when the server still has what the form left under the
      -- user's key, runs the tool with credentials that have, at each configured field, the text of
      -- the form, which is not blank where the field is required, and nothing else. The server, the
      -- ciphers and the random source keep their contracts, JSON brings the texts, booleans, floats
      -- and null values of a map back and adds no key, hashes hold no colon and different subjects
      -- and tokens have different keys.
      pub require_credentials_retry_on_redis :
          (session again : Session) (next : Tool host lib float provider elicit)
          (ctx : Context (Value N)) (user : User (Value N)) (sub : String)
          (cs : List (Call W (Value N))) (w : W) (r : Request (Value N))
          (found collected : Dict (Value N)) (s s' : Running W Session)
          → ReturnHere sub w cs r found collected
          → user_from_context ctx ≡ some user
          → user.sub ≡ sub
          → provider.creds_store.get sub s.world ≡ (ok none, w)
          → content s'.world (redis_token_key lib tokens.prefix sub)
            ≡ content (answered_here sub cs w r) (redis_token_key lib tokens.prefix sub)
          → (require_credentials host lib float provider elicit true session next ctx s ≡ (
            err (
                elicitation_required (
                  prompt host lib float provider elicit
                    (token_of host lib float provider elicit creds fields_stored pending
                      fields_stored tt get-set_result sub w)
                    (drawn host lib float provider elicit sub w).0
                  ∷ [])),
            record s { world = (created host lib float provider elicit sub w).1 },
          ))
            × ((filled : Dict (Value N)) × ((k : String)
                  → (lookup k filled ≡ collected_at lib r.form provider.variables [] k)
                    × ((x : Variable)
                        → lookup k provider.variables ≡ some x
                        → is_blank lib r.form k x ≡ false))
                × (require_credentials host lib float provider elicit true again next ctx s'
                    ≡ next
                        (with_credentials ctx filled)
                        (record s' { world = (provider.creds_store.get sub s'.world).1 })))
      require_credentials_retry_on_redis session again next ctx user sub cs w r found collected s s'
            v is own nothing lasting =
          let now = get_lem host client lib json tokens h random_kept sub in
          let same : (provider.creds_store.get sub s'.world).0
              ≡ (provider.creds_store.get sub (answered_here sub cs w r)).0 =
            ground (arith, now s'.world, now (answered_here sub cs w r), lasting) in
          require_credentials_retry host lib float provider elicit creds fields_stored pending
            fields_stored tt get-set_result v session again next ctx user s s' is own nothing same
