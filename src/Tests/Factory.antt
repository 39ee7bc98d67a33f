-- ===== src/Tests/Factory.antt =====
-- Two pairs of Redis stores that package store builds for two namespaces of one server.
use Prim.Native.String.{count}
use mcp_authkit_go.Base.{none, String, ◌≡◌, ◌≢◌, refl, arith, eq_iff}
use mcp_authkit_go.Base.{◌==◌, if◌then◌else◌}
use mcp_authkit_go.Base.Action.{ok}
use mcp_authkit_go.Host.{Host, Crypto}
use mcp_authkit_go.Store.Encryption.{
  new_cipher, new_cipher_from_env, trim_newline, cipher_from_file, ephemeral_cipher,
}
use mcp_authkit_go.Store.File.{safe_name}
use mcp_authkit_go.Store.Redis.{
  RedisTokenStore, RedisPendingStore, new_redis_token_store, new_redis_pending_store,
  redis_token_key, redis_pending_key, redis_done_key, Content,
}
use mcp_authkit_go.Store.Factory.{
  FactoryOptions, Connector, env_or_default, require_encryption_key, create_redis_stores,
  create_stores,
}
use mcp_authkit_go.Store.Factory.Namespaces.{create_stores-namespaces}
use mcp_authkit_go.Tests.Toys.{toy_library, toy_aead, toy_cipher, toy_redis_host, toy_client}

abbrev keyed_host : Host Content
keyed_host = record toy_redis_host {
  getenv = λ k w. if k == "STORAGE_ENCRYPTION_KEY" then "0123456789abcdef0123456789abcdef" else "";
}

abbrev toy_crypto : Crypto (Unit {0})
toy_crypto = record { new_aes = λ k. ok tt; new_gcm = λ b. ok toy_aead }

abbrev one_server : Connector Content
one_server = record { connect = λ u. ok toy_client }

abbrev options : String → FactoryOptions
options namespace = record {
  mode = "redis";
  file_path = "";
  redis_url = "redis://here";
  redis_prefix = "auth:";
  namespace = namespace;
}

abbrev tokens_of : String → RedisTokenStore
tokens_of namespace = new_redis_token_store "auth:" namespace toy_cipher

abbrev pendings_of : RedisPendingStore
pendings_of = new_redis_pending_store "auth:" toy_cipher

abbrev empty : Content
empty k = none

create_stores-namespaces_example :
    ((a b : String)
      → count (safe_name toy_library a) ≡ count (safe_name toy_library b)
      → redis_token_key toy_library (tokens_of "git").prefix a
        ≢ redis_token_key toy_library (tokens_of "jira").prefix b)
    × ((k : String)
        → (redis_pending_key toy_library pendings_of.prefix k
            ≡ redis_pending_key toy_library pendings_of.prefix k)
          × (redis_done_key toy_library pendings_of.prefix k
              ≡ redis_done_key toy_library pendings_of.prefix k))
unfolding create_stores create_redis_stores require_encryption_key env_or_default
    new_cipher_from_env new_cipher trim_newline cipher_from_file ephemeral_cipher
create_stores-namespaces_example =
    create_stores-namespaces keyed_host toy_library toy_crypto one_server (options "git")
      (options "jira") empty empty toy_client toy_client (tokens_of "git") (tokens_of "jira")
      pendings_of pendings_of (λ e. cc) refl (λ e. cc) (λ e. cc)
      (λ e. ground (arith, eq_iff "git" "jira")) refl refl
