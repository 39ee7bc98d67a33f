-- ===== src/Tests/Stores.antt =====
-- The stores at concrete parameters.
use text.Mathlib.TextLemmas.{cons-append, append_cancel_left, append_cancel_right}
use mcp_authkit_go.Base.{
  ℕ, String, false, none, some, [], ◌∷◌, ◌≡◌, ◌≢◌, refl, sym, ◌∙◌, inl, inr, Bool-cases, arith,
  eq_iff, ◌==◌, ◌<>◌, if◌then◌else◌,
}
use mcp_authkit_go.Base.Int.{pos}
use mcp_authkit_go.Base.Action.{ok}
use mcp_authkit_go.Host.{Files}
use mcp_authkit_go.Value.{GoMap}
use mcp_authkit_go.Store.{IsTokenStore}
use mcp_authkit_go.Store.Memory.{MemoryPendingStore, new_memory_pending_store, clone_map}
use mcp_authkit_go.Store.Memory.Pending.{create, get, pop}
use mcp_authkit_go.Store.Memory.Lifetime.{create-lifetime}
use mcp_authkit_go.Base.{◌+◌, ◌*◌, ◌^◌, ◌<◌, ◌≤◌}
use mcp_authkit_go.Store.Encryption.{encrypt, decrypt}
use mcp_authkit_go.Store.Encryption.Laws.{decrypt-encrypt}
use mcp_authkit_go.Store.File.{safe_name, FileTokenStore, atomic_write_file, token_path}
use mcp_authkit_go.Store.File.Atomic.{Writes, atomic_write_file-Writes}
use mcp_authkit_go.Store.File.Tokens.{file_token_store}
use mcp_authkit_go.Store.File.Tokens.Laws.{file_token_store-IsTokenStore}
use mcp_authkit_go.Store.Redis.{RedisTokenStore, redis_token_key}
use mcp_authkit_go.Store.Redis.Tokens.{redis_token_store}
use mcp_authkit_go.Store.Redis.Tokens.Laws.{redis_token_store-IsTokenStore}
use mcp_authkit_go.Tests.Names.{codes, marks, marks_inj, heads}
use mcp_authkit_go.Tests.Toys.{
  toy_library, toy_cipher, toy_aead-IsAead, toy_json, toy_json-IsJson, renamed, toy_host,
  toy_random, is_toy_temp, toy_host-IsHost, toy_client, toy_client-IsClient, toy_redis_host,
}

abbrev one_file : Files
one_file p = if p == "f" then some (1 ∷ []) else none

abbrev three : GoMap ℕ
three = some (("n", 3) ∷ [])

atomic_write_file-Writes_example :
    let r = atomic_write_file toy_host toy_library "f" (7 ∷ []) one_file in
    Writes is_toy_temp "f" (7 ∷ []) r.0 one_file r.1
atomic_write_file-Writes_example =
    atomic_write_file-Writes toy_host toy_library toy_host-IsHost "f" refl (7 ∷ []) one_file

decrypt-encrypt_example : decrypt toy_json toy_cipher (3 ∷ []) ≡ ok three
unfolding encrypt
decrypt-encrypt_example =
    decrypt-encrypt toy_json toy_cipher toy_host toy_aead-IsAead toy_json-IsJson toy_random three
      one_file (3 ∷ []) refl

abbrev toy_tokens : FileTokenStore
toy_tokens = record { dir = "tokens"; cipher = toy_cipher }

plain : (sub : String) → is_toy_temp (token_path toy_library toy_tokens sub) ≡ false
unfolding safe_name
plain sub =
    let name = "/" <> safe_name toy_library sub <> ".enc" in
    elim (Bool-cases ("tokens" <> name == "~")) [
      | inr other ↦ other
      | inl same ↦
          let e = (eq_iff ("tokens" <> name) "~").0 same in
          absurd (omega (arith, heads (sym (cons-append "t" "okens" name) ∙ e)))
    ]

abbrev toy_redis : RedisTokenStore
toy_redis = record { prefix = "p:"; cipher = toy_cipher }

file_apart :
    (a b : String)
    → a ≢ b
    → token_path toy_library toy_tokens a ≢ token_path toy_library toy_tokens b
unfolding safe_name
file_apart a b ne e = ne (
    marks_inj a b (
      append_cancel_right (marks (codes a)) (marks (codes b)) ".enc" (
        append_cancel_left "/" (marks (codes a) <> ".enc") (marks (codes b) <> ".enc") (
          append_cancel_left "tokens" ("/" <> marks (codes a) <> ".enc")
            ("/" <> marks (codes b) <> ".enc") e))))

redis_apart :
    (a b : String)
    → a ≢ b
    → redis_token_key toy_library toy_redis.prefix a
      ≢ redis_token_key toy_library toy_redis.prefix b
unfolding safe_name redis_token_key
redis_apart a b ne e = ne (
    marks_inj a b (
      append_cancel_left "token:" (marks (codes a)) (marks (codes b))
        (append_cancel_left "p:" ("token:" <> marks (codes a)) ("token:" <> marks (codes b)) e)))

file_token_store-IsTokenStore_example :
    IsTokenStore (file_token_store toy_host toy_library toy_json toy_tokens) renamed
file_token_store-IsTokenStore_example =
    file_token_store-IsTokenStore toy_host toy_library toy_json toy_tokens toy_host-IsHost plain
      toy_aead-IsAead toy_json-IsJson file_apart

redis_token_store-IsTokenStore_example :
    IsTokenStore
      (redis_token_store toy_redis_host toy_client toy_library toy_json toy_redis)
      renamed
redis_token_store-IsTokenStore_example =
    redis_token_store-IsTokenStore toy_redis_host toy_client toy_library toy_json toy_redis
      toy_client-IsClient (λ n w. refl) toy_aead-IsAead toy_json-IsJson toy_random redis_apart

abbrev empty_store : MemoryPendingStore ℕ
empty_store = new_memory_pending_store

create-lifetime_example :
    let s = (create (pos 5) "k" three (pos 1) empty_store).1 in
    (1 * 1_000_000_000 < 2 ^ 63
      → 9 ≤ 5 + 1 * 1_000_000_000
      → ((get (pos 9) "k" s).0 ≡ ok (clone_map (clone_map three)))
        × ((pop (pos 9) "k" s).0 ≡ ok (clone_map (clone_map three))))
    × (1 * 1_000_000_000 < 2 ^ 63
        → 5 + 1 * 1_000_000_000 < 9
        → ((get (pos 9) "k" s).0 ≡ ok none) × ((pop (pos 9) "k" s).0 ≡ ok none))
    × (2 ^ 63 ≤ 1 * 1_000_000_000
        → 1 * 1_000_000_000 < 2 ^ 64
        → 5 ≤ 9
        → ((get (pos 9) "k" s).0 ≡ ok none) × ((pop (pos 9) "k" s).0 ≡ ok none))
create-lifetime_example = create-lifetime "k" empty_store 5 9 1 three
