-- ===== src/Tests/Answers.antt =====
-- The wait of store/redis.go for a result that is there, at a server that is a function.
use mcp_authkit_go.Base.{ℕ, some, none, [], ◌∷◌, ◌≡◌, refl, arith}
use mcp_authkit_go.Base.Int.{ℤ, pos}
use mcp_authkit_go.Base.Action.{Action, ok}
use mcp_authkit_go.Value.{GoMap}
use mcp_authkit_go.Store.Encryption.{encrypt}
use mcp_authkit_go.Store.File.Pending.{Pause, elapsed}
use mcp_authkit_go.Store.Redis.{RedisPendingStore, Content, put_key, redis_done_key}
use mcp_authkit_go.Store.Redis.Pending.{set_result, wait_for_result}
use mcp_authkit_go.Store.Redis.Pending.Answer.{set_result-wait_for_result}
use mcp_authkit_go.Tests.Toys.{
  toy_library, toy_cipher, toy_json, toy_json-IsJson, toy_aead-IsAead, toy_redis_host, toy_client,
  toy_client-IsClient, length-zero_bytes,
}

abbrev pending_keys : RedisPendingStore
pending_keys = record { prefix = "p:"; cipher = toy_cipher }

abbrev three : GoMap ℕ
three = some (("n", 3) ∷ [])

abbrev no_keys : Content
no_keys k = none

abbrev sent : Content
sent =
    (set_result toy_redis_host toy_client toy_library toy_json pending_keys "k" three (pos 120)
      no_keys).1

abbrev pauses : ℤ → Action Content Pause
pauses n w = (elapsed, w)

set_result-wait_for_result_example :
    ((wait_for_result toy_redis_host toy_client toy_library toy_json pending_keys 4 pauses "k"
        (pos 5)
        sent).0
      ≡ some (ok three))
    × ((wait_for_result toy_redis_host toy_client toy_library toy_json pending_keys 4 pauses "k"
          (pos 5)
          sent).1
        ≡ put_key sent (redis_done_key toy_library pending_keys.prefix "k") none)
unfolding set_result encrypt
set_result-wait_for_result_example =
    set_result-wait_for_result toy_redis_host toy_client toy_library toy_json pending_keys
      toy_client-IsClient toy_aead-IsAead toy_json-IsJson
      (λ n w b e. ground (arith, length-zero_bytes n)) (λ k w b there. ground (arith, there))
      (λ k w. refl) (λ w. refl) "k" three (pos 120) no_keys sent refl refl 3 pauses (pos 5)
