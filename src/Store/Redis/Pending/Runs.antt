-- ===== src/Store/Redis/Pending/Runs.antt =====
-- Runs of calls of `RedisPendingStore` of store/redis.go, by any number of replicas of the program.
use mcp_authkit_go.Base.{ℕ, ◌≤◌, String, none, List, ◌≡◌, ◌≢◌, length, arith}
use mcp_authkit_go.Base.Int.{ℤ}
use mcp_authkit_go.Base.Action.{Action, Result, ok}
use mcp_authkit_go.Host.{Bytes, Host, Library, Json, IsAead, IsJson}
use mcp_authkit_go.Value.{GoMap}
use mcp_authkit_go.Store.{PendingStore}
use mcp_authkit_go.Store.Trace.{Call, AllSucceed, handed, made, handed_le_made}
use mcp_authkit_go.Store.Redis.{Client, RedisPendingStore, redis_pending_key, Content, IsClient}
use mcp_authkit_go.Store.Redis.Pending.{redis_pending_store}
use mcp_authkit_go.Store.Redis.Pending.Entries.{entry_at, redis_pending_store-IsPendingStore}

module _ {W N V : Type 0} (host : Host W) (client : Client W) (lib : Library)
    (json : Json (GoMap V)) (s : RedisPendingStore)
    (wait : String → N → Action W (Result (GoMap V))) {content : W → Content}
    (h : IsClient client content)
    (set_local : (k j : String) (b : Bytes) (d : ℤ) (w : W)
      → k ≢ j
      → content (client.set k b d w).1 j ≡ content w j)
    (random_kept : (n : ℕ) (w : W) → content (host.random n w).1 ≡ content w) where
  abbrev pub redis : PendingStore W N V
  redis = redis_pending_store host client lib json s wait

  -- What a `Pop` of a key would hand out.
  abbrev pub entry : W → String → GoMap V
  entry w = entry_at host client lib json s wait h set_local random_kept (content w)

  -- A key is handed out no more often than it was created: in a run of calls of `Create`, `Pop` and
  -- `SetResult` by any number of replicas, in which every `Create` succeeds and time between them
  -- takes entries off at most, from a world where the key holds nothing, the calls of `Pop` for a
  -- key that return an entry are no more than those of `Create` for it. Different keys have
  -- different Redis keys, and the server, the cipher, the random source and JSON keep their
  -- contracts.
  pub pop_le_create :
      {stored : GoMap V → GoMap V}
      → IsAead s.cipher.aead
      → IsJson json stored
      → ((n : ℕ) (w : W) (b : Bytes) → (host.random n w).0 ≡ ok b → length b ≡ n)
      → ((a b : String)
          → a ≢ b
          → redis_pending_key lib s.prefix a ≢ redis_pending_key lib s.prefix b)
      → (k : String) (calls : List (Call W V)) (w : W) → AllSucceed redis entry calls w
      → entry w k ≡ none
      → handed redis k calls w ≤ made redis k calls
  pop_le_create aead js full apart k calls w good empty =
      let contract =
        redis_pending_store-IsPendingStore host client lib json s wait h set_local random_kept aead
          js full apart in
      let balance = handed_le_made redis k contract calls w good in ground (arith, balance, empty)
