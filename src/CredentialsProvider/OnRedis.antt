-- ===== src/CredentialsProvider/OnRedis.antt =====
-- credentialsprovider/credentialsprovider.go over the two stores of store/redis.go, of one server.
pub mod Retry
pub mod Flow
use mcp_authkit_go.Base.Text.{occurs}
use mcp_authkit_go.Base.{ℕ, String, ◌≡◌, ◌≢◌, ap, ◌∙◌, arith, inl, inr, length}
use mcp_authkit_go.Base.Int.{ℤ, pos}
use mcp_authkit_go.Base.Action.{Action, Result, ok, Result-cases}
use mcp_authkit_go.Host.{Bytes, Host, Library, Json, IsAead, IsJson}
use mcp_authkit_go.Value.{Value, GoMap}
use mcp_authkit_go.Store.{TokenStore, IsPendingStore-IsOneShot}
use mcp_authkit_go.Store.Encryption.{encrypt}
use mcp_authkit_go.Store.File.{safe_name}
use mcp_authkit_go.Store.Redis.{
  Client, RedisTokenStore, RedisPendingStore, redis_token_key, redis_pending_key, Content, IsClient,
}
use mcp_authkit_go.Store.Redis.Keys.{token_apart_pending}
use mcp_authkit_go.Store.Redis.Tokens.{redis_token_store}
use mcp_authkit_go.Store.Redis.Tokens
use mcp_authkit_go.Store.Redis.Pending.{redis_pending_store}
use mcp_authkit_go.Store.Redis.Pending.Entries.{
  decoded, entry_at, redis_pending_store-IsPendingStore,
}
use mcp_authkit_go.Middleware.{Request}
use mcp_authkit_go.CredentialsProvider.{Provider, handle_submit}
use mcp_authkit_go.CredentialsProvider.Submit.{with_store, handle_submit_once}

module _ {W N : Type 0} (host : Host W) (client : Client W) (lib : Library)
    (json : Json (GoMap (Value N))) (tokens : RedisTokenStore) (pendings : RedisPendingStore)
    (wait : String → N → Action W (Result (GoMap (Value N)))) (base : Provider W N) where
  -- the provider with the stores of this server, each with its own prefix and cipher
  abbrev pub on_redis : Provider W N
  on_redis = record base {
    creds_store = redis_token_store host client lib json tokens;
    pending_store = redis_pending_store host client lib json pendings wait;
  }

  module _ {content : W → Content} (h : IsClient client content)
      (set_local : (k j : String) (b : Bytes) (d : ℤ) (w : W)
        → k ≢ j
        → content (client.set k b d w).1 j ≡ content w j)
      (random_kept : (n : ℕ) (w : W) → content (host.random n w).1 ≡ content w)
      {stored : GoMap (Value N) → GoMap (Value N)} (aead : IsAead pendings.cipher.aead)
      (js : IsJson json stored)
      (full : (n : ℕ) (w : W) (b : Bytes) → (host.random n w).0 ≡ ok b → length b ≡ n)
      (apart : (a b : String)
        → a ≢ b
        → redis_pending_key lib pendings.prefix a ≢ redis_pending_key lib pendings.prefix b)
      (colonless : (a : String) → occurs 58 (safe_name lib a) ≡ 0) where
    abbrev entry : W → String → GoMap (Value N)
    entry w = entry_at host client lib json pendings wait h set_local random_kept (content w)

    -- A write of the token store leaves the entries of the pending store alone.
    entry-set :
        (k sub : String) (m : GoMap (Value N)) (w : W)
        → entry (on_redis.creds_store.set sub m w).1 k ≡ entry w k
    unfolding Tokens.set encrypt
    entry-set k sub m w =
        let key = redis_pending_key lib pendings.prefix k in
        let token_key = redis_token_key lib tokens.prefix sub in
        let ne = token_apart_pending lib tokens.prefix pendings.prefix sub k colonless in
        let w' = (encrypt host json tokens.cipher m w).1 in
        let kept : content w' key ≡ content w key =
          ground
            (arith, ap (λ (c : Content). c key) (random_kept tokens.cipher.aead.nonce_size w)) in
        ap (decoded host client lib json pendings wait h set_local random_kept)
          (elim (Result-cases (encrypt host json tokens.cipher m w).0) [
            | inr (e, bad) ↦ ground (arith, kept)
            | inl (b, good) ↦ ground (arith, kept, set_local token_key key b (pos 0) w' ne)
          ])

    -- With one Redis server behind both stores, whatever their prefixes: once a submission has
    -- popped its token, which was not empty, a second one with the same token is answered with 400
    -- and leaves the store of credentials out, whatever the two forms hold. The server, the cipher,
    -- the random source and JSON keep their contracts, hashes hold no colon and differ for
    -- different keys.
    pub handle_submit_once_on_redis :
        (first second : Request (Value N)) (w : W) (popped : GoMap (Value N))
        → first.query "t" ≢ ""
        → first.query "t" ≡ second.query "t"
        → (on_redis.pending_store.pop (first.query "t") w).0 ≡ ok popped
        → let w' = (handle_submit lib on_redis first w).1 in
          ((handle_submit lib on_redis second w').0.status ≡ 400)
          × ((store : TokenStore W (Value N))
              → handle_submit lib on_redis second w'
                ≡ handle_submit lib (with_store lib on_redis store) second w')
    handle_submit_once_on_redis =
        handle_submit_once lib on_redis
          (IsPendingStore-IsOneShot (
            redis_pending_store-IsPendingStore host client lib json pendings wait h set_local
              random_kept aead js full apart))
          (λ k sub m w g. entry-set k sub m w ∙ g)
