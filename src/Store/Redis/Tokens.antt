-- ===== src/Store/Redis/Tokens.antt =====
-- store/redis.go: the methods of `RedisTokenStore`.
pub mod Laws
use mcp_authkit_go.Base.{String, none}
use mcp_authkit_go.Base.Int.{pos}
use mcp_authkit_go.Base.Action.{Action, Result, ok, err, wrapped, pure, ◌>>=◌, ◌>>◌}
use mcp_authkit_go.Host.{Host, Library, Json}
use mcp_authkit_go.Value.{GoMap}
use mcp_authkit_go.Store.{TokenStore}
use mcp_authkit_go.Store.Encryption.{encrypt, decrypt}
use mcp_authkit_go.Store.Redis.{Reply, value, nil, failed, Client, RedisTokenStore, redis_token_key}

module _ {W V : Type 0} (host : Host W) (client : Client W) (lib : Library) (json : Json (GoMap V))
    (s : RedisTokenStore) where
  unfoldable pub get : String → Action W (Result (GoMap V))
  get sub = do
    reply ← client.get (redis_token_key lib s.prefix sub)
    elim reply [
      | Reply.nil ↦ pure (ok none)
      | Reply.failed e ↦ pure (err (wrapped "store: redis GET" e))
      | value sealed ↦ elim (decrypt json s.cipher sealed) [
        | ok v ↦ pure (ok v)
        | err _ ↦ do client.del (redis_token_key lib s.prefix sub); pure (ok none)
      ]
    ]

  unfoldable pub set : String → GoMap V → Action W (Result (Unit {0}))
  set sub m = do
    sealed ← encrypt host json s.cipher m
    elim sealed [
      | err e ↦ pure (err e)
      | ok b ↦ client.set (redis_token_key lib s.prefix sub) b (pos 0)
    ]

  unfoldable pub delete : String → Action W (Result (Unit {0}))
  delete sub = client.del (redis_token_key lib s.prefix sub)

  abbrev pub redis_token_store : TokenStore W V
  redis_token_store = record { get = get; set = set; delete = delete }
