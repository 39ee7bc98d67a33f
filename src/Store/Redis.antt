-- ===== src/Store/Redis.antt =====
-- store/redis.go: keys, `RedisTokenStore` and `RedisPendingStore`. The client of go-redis is a
-- parameter.
pub mod Keys
pub mod Tokens
pub mod Pending
use mcp_authkit_go.Base.{ℕ, String, Bool, not, Option, none, some, ◌<>◌, ◌==◌, if◌then◌else◌, eqb}
use mcp_authkit_go.Base.{arith, ◌≡◌, ◌≢◌, List, [], ◌∷◌, ltb}
use mcp_authkit_go.Base.Int.{ℤ}
use mcp_authkit_go.Base.Action.{Action, Error, Result, ok, err}
use mcp_authkit_go.Host.{Bytes, Library}
use mcp_authkit_go.Store.Encryption.{Cipher}
use mcp_authkit_go.Store.File.{safe_name}
use Prim.Native.Char.{code}

-- The answer to a GET: `nil` is the error redis.Nil.
pub data Reply : Type 0 where
  value : Bytes → Reply
  nil : Reply
  failed : Error → Reply

-- The error of Exec, which is that of the first command that failed.
pub data Exec : Type 0 where
  done : Exec
  nil : Exec
  failed : Error → Exec

pub record Client (W : Type 0) : Type 0 where
  pub get : String → Action W Reply
  -- SET with an expiration in nanoseconds, 0 for none
  pub set : String → Bytes → ℤ → Action W (Result (Unit {0}))
  pub del : String → Action W (Result (Unit {0}))
  pub exists : String → Action W (Result ℕ)
  -- the transaction GET, DEL: the error of Exec and the answer to the GET
  pub get_and_del : String → Action W (Exec × Reply)

pub record RedisTokenStore : Type 0 where
  pub prefix : String
  pub cipher : Cipher

pub record RedisPendingStore : Type 0 where
  pub prefix : String
  pub cipher : Cipher

abbrev pub default_redis_key_prefix : String
default_redis_key_prefix = "mcp:auth:"

unfoldable pub redis_token_key : Library → String → String → String
redis_token_key lib prefix sub = prefix <> "token:" <> safe_name lib sub

unfoldable pub redis_pending_key : Library → String → String → String
redis_pending_key lib prefix key = prefix <> "pending:" <> safe_name lib key

unfoldable pub redis_done_key : Library → String → String → String
redis_done_key lib prefix key = prefix <> "done:" <> safe_name lib key

-- a text onto the front of another, last character first
abbrev pub reverse_onto : String → String → String
reverse_onto String.[] t = t
reverse_onto (String.◌∷◌ c s) t = reverse_onto s (String.◌∷◌ c t)

abbrev pub drop_colons : String → String
drop_colons String.[] = String.[]
drop_colons (String.◌∷◌ c s) = if eqb (code c) b':' then drop_colons s else String.◌∷◌ c s

-- The loop takes the last character off while it is a colon: on the reversed text, the first.
unfoldable pub trim_suffix_colon : String → String
trim_suffix_colon s = reverse_onto (drop_colons (reverse_onto s "")) ""

unfoldable pub new_redis_token_store : String → String → Cipher → RedisTokenStore
new_redis_token_store prefix namespace cipher =
    let base = if prefix == "" then default_redis_key_prefix else prefix in
    let full =
      if not (namespace == "") then trim_suffix_colon base <> ":" <> namespace <> ":" else base in
    record { prefix = full; cipher = cipher }

unfoldable pub new_redis_pending_store : String → Cipher → RedisPendingStore
new_redis_pending_store prefix cipher = record {
  prefix = if prefix == "" then default_redis_key_prefix else prefix;
  cipher = cipher;
}

-- The live keys of the server as a map.
abbrev pub Content : Type 0
Content = String → Option Bytes

abbrev pub put_key : Content → String → Option Bytes → Content
put_key f k c j = if k == j then c else f j

abbrev pub as_reply : Option Bytes → Reply
as_reply none = Reply.nil
as_reply (some b) = value b

-- How the commands act on the live keys, for a server that answers every read.
pub record IsClient {W : Type 0} (client : Client W) (content : W → Content) : Type 0 where
  pub get_lem : (k : String) (w : W) → (client.get k w).0 ≡ as_reply (content w k)
  pub content-get : (k : String) (w : W) → content (client.get k w).1 ≡ content w
  pub content-set :
      (k : String) (b : Bytes) (d : ℤ) (w : W)
      → (client.set k b d w).0 ≡ ok tt
      → content (client.set k b d w).1 ≡ put_key (content w) k (some b)
  pub content-del :
      (k : String) (w : W)
      → (client.del k w).0 ≡ ok tt
      → content (client.del k w).1 ≡ put_key (content w) k none
  pub content-del_failed :
      (k : String) (w : W) (e : Error)
      → (client.del k w).0 ≡ err e
      → content (client.del k w).1 ≡ content w
  -- the transaction is atomic, and Exec reports redis.Nil where the GET does
  pub get_and_del_lem :
      (k : String) (w : W)
      → (client.get_and_del k w).0
        ≡ (elim (content w k) [ none ↦ Exec.nil | some _ ↦ done ], as_reply (content w k))
  pub content-get_and_del :
      (k : String) (w : W) → content (client.get_and_del k w).1 ≡ put_key (content w) k none
