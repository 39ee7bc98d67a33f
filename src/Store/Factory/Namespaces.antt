-- ===== src/Store/Factory/Namespaces.antt =====
-- What a namespace of store/factory.go keeps apart in one Redis server, and what it does not.
use Prim.Native.String.{count}
use mcp_authkit_go.Base.{String, ◌≡◌, ◌≢◌, ◌∙◌, sym, ap, arith, eq_iff, inl, inr, Bool-cases}
use mcp_authkit_go.Base.{◌==◌}
use mcp_authkit_go.Base.Action.{ok, Result-cases}
use mcp_authkit_go.Host.{Host, Library, Crypto}
use mcp_authkit_go.Store.Encryption.{Cipher}
use mcp_authkit_go.Store.File.{safe_name, new_file_token_store, new_file_pending_store}
use mcp_authkit_go.Store.Redis.{
  Client, RedisTokenStore, RedisPendingStore, new_redis_token_store, new_redis_pending_store,
  redis_token_key, redis_pending_key, redis_done_key,
}
use mcp_authkit_go.Store.Redis.Keys.{namespaces_apart}
use mcp_authkit_go.Store.Factory.{
  FactoryOptions, redis, Connector, env_or_default, require_encryption_key, create_file_stores,
  create_redis_stores, create_stores,
}

module _ {W Block : Type 0} (host : Host W) (lib : Library) (crypto : Crypto Block)
    (connector : Connector W) where
  -- The two stores of a Redis server under a prefix that the options give.
  record IsBuilt (opts : FactoryOptions) (t : RedisTokenStore) (p : RedisPendingStore)
      : Type 0 where
    cipher : Cipher
    tokens : t ≡ new_redis_token_store opts.redis_prefix opts.namespace cipher
    pendings : p ≡ new_redis_pending_store opts.redis_prefix cipher

  create_redis_stores-IsBuilt :
      (opts : FactoryOptions) (w : W) (c : Client W) (t : RedisTokenStore) (p : RedisPendingStore)
      → opts.redis_prefix ≢ ""
      → (create_redis_stores host lib crypto connector opts w).0 ≡ ok (redis c t p)
      → IsBuilt opts t p
  unfolding create_redis_stores env_or_default
  create_redis_stores-IsBuilt opts w c t p set e =
      let w' = (require_encryption_key host lib crypto "redis" w).1 in
      let url =
        env_or_default host lib crypto opts.redis_url "REDIS_URL" "redis://localhost:6379/0" w' in
      elim (Result-cases (require_encryption_key host lib crypto "redis" w).0) [
        | inr (x, bad) ↦ absurd (ground arith)
        | inl (cipher, good) ↦ elim (Result-cases (connector.connect url)) [
          | inr (x, bad) ↦ absurd (ground arith)
          | inl (client, up) ↦
              let set_prefix = eq_iff opts.redis_prefix "" in
              record {
                cipher = cipher;
                tokens = ground (arith, set_prefix, set);
                pendings = ground (arith, set_prefix, set);
              }
        ]
      ]

  -- The other backends have other stores.
  create_file_stores-redis :
      (opts : FactoryOptions) (w : W) (c : Client W) (t : RedisTokenStore) (p : RedisPendingStore)
      → (create_file_stores host lib crypto opts w).0 ≢ ok (redis c t p)
  unfolding create_file_stores
  create_file_stores-redis opts w c t p e =
      let (key, w1) = require_encryption_key host lib crypto "file" w in
      let path =
        env_or_default host lib crypto opts.file_path "FILE_STORAGE_PATH" "/tmp/mcp-auth-store"
          w1 in
      elim (Result-cases (require_encryption_key host lib crypto "file" w).0) [
        | inr (x, bad) ↦ ground arith
        | inl (cipher, good) ↦
            let (_, w2) = new_file_token_store host lib path opts.namespace cipher w1 in
            elim (Result-cases (new_file_token_store host lib path opts.namespace cipher w1).0) [
              | inr (x, bad) ↦ ground arith
              | inl (tokens, made) ↦
                  elim (Result-cases (new_file_pending_store host lib path cipher w2).0) [
                    | inr (x, bad) ↦ ground arith
                    | inl (pendings, done) ↦ ground arith
                  ]
            ]
      ]

  create_stores-IsBuilt :
      (opts : FactoryOptions) (w : W) (c : Client W) (t : RedisTokenStore) (p : RedisPendingStore)
      → opts.redis_prefix ≢ ""
      → (create_stores host lib crypto connector opts w).0 ≡ ok (redis c t p)
      → IsBuilt opts t p
  unfolding create_stores
  create_stores-IsBuilt opts w c t p set e =
      let mode = env_or_default host lib crypto opts.mode "TOKEN_STORAGE_MODE" "memory" w in
      elim (Bool-cases (mode == "memory")) [
        | inl is_it ↦ absurd (ground arith)
        | inr not_memory ↦ elim (Bool-cases (mode == "file")) [
          | inl is_it ↦ absurd (create_file_stores-redis opts w c t p (ground arith))
          | inr not_file ↦ elim (Bool-cases (mode == "redis")) [
            | inl is_it ↦ create_redis_stores-IsBuilt opts w c t p set (ground arith)
            | inr unknown ↦ absurd (ground arith)
          ]
        ]
      ]

  -- Two calls of `CreateStores` that build Redis stores under one prefix, which the options give,
  -- for two different namespaces, none of them empty: the token stores use no key together, for
  -- subjects whose hashes have one length, and the pending stores use the same keys for every key
  -- of theirs, so a namespace does not keep pending entries and results apart.
  pub create_stores-namespaces :
      (one other : FactoryOptions) (w w' : W) (c c' : Client W) (t t' : RedisTokenStore)
      (p p' : RedisPendingStore)
      → one.redis_prefix ≢ ""
      → other.redis_prefix ≡ one.redis_prefix
      → one.namespace ≢ ""
      → other.namespace ≢ ""
      → one.namespace ≢ other.namespace
      → (create_stores host lib crypto connector one w).0 ≡ ok (redis c t p)
      → (create_stores host lib crypto connector other w').0 ≡ ok (redis c' t' p')
      → ((a b : String)
          → count (safe_name lib a) ≡ count (safe_name lib b)
          → redis_token_key lib t.prefix a ≢ redis_token_key lib t'.prefix b)
        × ((k : String)
            → (redis_pending_key lib p.prefix k ≡ redis_pending_key lib p'.prefix k)
              × (redis_done_key lib p.prefix k ≡ redis_done_key lib p'.prefix k))
  unfolding new_redis_token_store new_redis_pending_store
  create_stores-namespaces one other w w' c c' t t' p p' set same m n ne e f =
      let first = create_stores-IsBuilt one w c t p set e in
      let second = create_stores-IsBuilt other w' c' t' p' (λ z. set (sym same ∙ z)) f in
      let prefixes : p.prefix ≡ p'.prefix =
        ap (λ (x : RedisPendingStore). x.prefix) first.pendings
        ∙ ap (λ x. (new_redis_pending_store x first.cipher).prefix) (sym same)
        ∙ sym (ap (λ (x : RedisPendingStore). x.prefix) second.pendings) in
      (
        λ a b l z.
            namespaces_apart lib one.redis_prefix first.cipher one.namespace other.namespace a b m n
              ne l
              (sym (ap (λ (x : RedisTokenStore). redis_token_key lib x.prefix a) first.tokens)
                ∙ z
                ∙ ap (λ (x : RedisTokenStore). redis_token_key lib x.prefix b) second.tokens
                ∙ ap
                    (λ x.
                      redis_token_key lib
                        (new_redis_token_store x other.namespace first.cipher).prefix b)
                    same),
        λ k. (
          ap (λ x. redis_pending_key lib x k) prefixes,
          ap (λ x. redis_done_key lib x k) prefixes,
        ),
      )
