-- ===== src/Store/Factory.antt =====
-- store/factory.go: which backend is built, and when a key is required.
pub mod Laws
pub mod Namespaces
use mcp_authkit_go.Base.{String, Bool, ◌&&◌, not, ◌==◌, ◌<>◌, if◌then◌else◌}
use mcp_authkit_go.Base.Action.{Action, Error, message, wrapped, Result, ok, err, pure, ◌>>=◌}
use mcp_authkit_go.Host.{Host, Library, Crypto}
use mcp_authkit_go.Store.Encryption.{Cipher, new_cipher_from_env}
use mcp_authkit_go.Store.File.{
  FileTokenStore, FilePendingStore, new_file_token_store, new_file_pending_store,
}
use mcp_authkit_go.Store.Redis.{
  Client, RedisTokenStore, RedisPendingStore, new_redis_token_store, new_redis_pending_store,
  default_redis_key_prefix,
}

pub record FactoryOptions : Type 0 where
  pub mode : String
  pub file_path : String
  pub redis_url : String
  pub redis_prefix : String
  pub namespace : String

-- The pair of stores that is returned, by backend. The two stores of `memory` are empty.
pub data Stores (W : Type 0) : Type 0 where
  memory : Stores W
  file : FileTokenStore → FilePendingStore → Stores W
  redis : Client W → RedisTokenStore → RedisPendingStore → Stores W

-- redis.ParseURL and redis.NewClient
pub record Connector (W : Type 0) : Type 0 where
  pub connect : String → Result (Client W)

module _ {W Block : Type 0} (host : Host W) (lib : Library) (crypto : Crypto Block) where
  unfoldable pub env_or_default : String → String → String → W → String
  env_or_default value env_key fallback w =
      if not (value == "")
      then value
      else if not (host.getenv env_key w == "")
      then host.getenv env_key w
      else fallback

  unfoldable pub require_encryption_key : String → Action W (Result Cipher)
  require_encryption_key mode w =
      if host.getenv "STORAGE_ENCRYPTION_KEY" w == ""
        && host.getenv "STORAGE_ENCRYPTION_KEY_PATH" w == ""
      then (
        err (
            message (
              "store: TOKEN_STORAGE_MODE=" <> mode
              <> " requires STORAGE_ENCRYPTION_KEY or STORAGE_ENCRYPTION_KEY_PATH "
              <> "to be set in the process environment (not just a .env file loaded by a settings library, "
              <> "which some frameworks do not propagate into os.Environ-equivalent lookups)")),
        w,
      )
      else new_cipher_from_env crypto lib host w

  -- the case "file"
  unfoldable pub create_file_stores : FactoryOptions → Action W (Result (Stores W))
  unfolding require_encryption_key env_or_default
  create_file_stores opts = do
    key ← require_encryption_key "file"
    elim key [
      | err e ↦ pure (err e)
      | ok cipher ↦ λ w.
          let file_path =
            env_or_default opts.file_path "FILE_STORAGE_PATH" "/tmp/mcp-auth-store" w in
          (do
            tokens ← new_file_token_store host lib file_path opts.namespace cipher
            elim tokens [
              | err e ↦ pure (err e)
              | ok token_store ↦ do
                pendings ← new_file_pending_store host lib file_path cipher
                pure (elim pendings [
                  | err e ↦ err e
                  | ok pending_store ↦ ok (file token_store pending_store)
                ])
            ])
            w
    ]

  module _ (connector : Connector W) where
    -- the case "redis"
    unfoldable pub create_redis_stores : FactoryOptions → Action W (Result (Stores W))
    unfolding require_encryption_key env_or_default
    create_redis_stores opts = do
      key ← require_encryption_key "redis"
      elim key [
        | err e ↦ pure (err e)
        | ok cipher ↦ λ w.
            let redis_url =
              env_or_default opts.redis_url "REDIS_URL" "redis://localhost:6379/0" w in
            let prefix =
              env_or_default opts.redis_prefix "REDIS_KEY_PREFIX" default_redis_key_prefix w in
            (
              elim (connector.connect redis_url) [
                | err e ↦ err (wrapped "store: parsing REDIS_URL" e)
                | ok client ↦ ok (
                    redis client (new_redis_token_store prefix opts.namespace cipher)
                      (new_redis_pending_store prefix cipher))
              ],
              w,
            )
      ]

    unfoldable pub create_stores : FactoryOptions → Action W (Result (Stores W))
    unfolding env_or_default
    create_stores opts w =
        let mode = env_or_default opts.mode "TOKEN_STORAGE_MODE" "memory" w in
        if mode == "memory"
        then (ok memory, w)
        else if mode == "file"
        then create_file_stores opts w
        else if mode == "redis"
        then create_redis_stores opts w
        else (
          err (
              message (
                "store: unknown TOKEN_STORAGE_MODE "
                <> lib.quote mode
                <> " (want memory, file, or redis)")),
          w,
        )
