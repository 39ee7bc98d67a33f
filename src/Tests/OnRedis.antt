-- ===== src/Tests/OnRedis.antt =====
-- The stores of store/redis.go as parts of larger programs, at a server that is a function.
use package.text.Mathlib.TextLemmas.{append_cancel_left}
use mcp_authkit_go.Base.{String, none, some, [], ◌∷◌, ◌≡◌, ◌≢◌, refl, arith, eq_iff, true}
use mcp_authkit_go.Base.{◌==◌, ◌<>◌, if◌then◌else◌}
use mcp_authkit_go.Base.Int.{ℤ, pos}
use mcp_authkit_go.Base.Text.{occurs}
use mcp_authkit_go.Base.Action.{Action, Result, ok}
use mcp_authkit_go.Host.{Bytes, Json, IsJson}
use mcp_authkit_go.Value.{Value, str, GoMap}
use mcp_authkit_go.Store.{TokenStore, IsPendingStore}
use mcp_authkit_go.Store.Encryption.{decrypt}
use mcp_authkit_go.Store.File.{safe_name}
use mcp_authkit_go.Store.Redis.{RedisTokenStore, RedisPendingStore, redis_pending_key, Content}
use mcp_authkit_go.Http.{Response}
use mcp_authkit_go.Store.Redis.Tokens.{redis_token_store}
use mcp_authkit_go.Store.Redis.Pending.{pop, atomic_pop, redis_pending_store}
use mcp_authkit_go.Store.Redis.Pending.Entries.{entry_at, redis_pending_store-IsPendingStore}
use mcp_authkit_go.Store.Trace.{Call, handed, made}
use mcp_authkit_go.Store.{PendingStore}
use mcp_authkit_go.Store.Encryption.{encrypt}
use mcp_authkit_go.Store.Redis.Pending.{create}
use mcp_authkit_go.Store.Redis.Pending.Runs.{redis, pop_le_create}
use mcp_authkit_go.Base.{List, ◌≤◌}
use mcp_authkit_go.CredentialsProvider.{Provider, text, handle_submit}
use mcp_authkit_go.CredentialsProvider.Submit.{with_store}
use mcp_authkit_go.CredentialsProvider.OnRedis.{on_redis, handle_submit_once_on_redis}
use mcp_authkit_go.Tests.World.{nobody}
use mcp_authkit_go.Middleware.{Request}
use mcp_authkit_go.Tests.Names.{codes, marks, marks_inj, occurs-marks}
use mcp_authkit_go.Tests.Toys.{
  toy_library, toy_cipher, toy_aead-IsAead, toy_random, toy_client, toy_client-IsClient,
  toy_redis_host,
}

-- every text stands for one entry
abbrev entry_u : GoMap (Value ℤ)
entry_u = some (("sub", str "u") ∷ [])

abbrev u_json : Json (GoMap (Value ℤ))
u_json = record { marshal = λ v. ok []; unmarshal = λ b. ok entry_u }

u_json-IsJson : IsJson u_json (λ v. entry_u)
u_json-IsJson = record { unmarshal-marshal = λ v b e. refl }

abbrev pub redis_tokens : RedisTokenStore
redis_tokens = record { prefix = "p:git:"; cipher = toy_cipher }

abbrev pub redis_pendings : RedisPendingStore
redis_pendings = record { prefix = "p:"; cipher = toy_cipher }

abbrev pub no_wait : String → ℤ → Action Content (Result (GoMap (Value ℤ)))
no_wait k n w = (ok none, w)

pub set_local :
    (k j : String) (b : Bytes) (d : ℤ) (w : Content) → k ≢ j → (toy_client.set k b d w).1 j ≡ w j
set_local k j b d w ne = ground (arith, eq_iff k j)

pub pending_apart :
    (a b : String)
    → a ≢ b
    → redis_pending_key toy_library "p:" a ≢ redis_pending_key toy_library "p:" b
unfolding safe_name redis_pending_key
pending_apart a b ne e = ne (
    marks_inj a b (
      append_cancel_left "pending:" (marks (codes a)) (marks (codes b)) (
        append_cancel_left "p:" ("pending:" <> marks (codes a)) ("pending:" <> marks (codes b)) e)))

redis_pending_store-IsPendingStore_example :
    IsPendingStore
      (redis_pending_store toy_redis_host toy_client toy_library u_json redis_pendings no_wait)
      (λ ttl. Unit)
      (λ v. entry_u)
      (entry_at toy_redis_host toy_client toy_library u_json redis_pendings no_wait
        toy_client-IsClient set_local
        (λ n w. refl))
redis_pending_store-IsPendingStore_example =
    redis_pending_store-IsPendingStore toy_redis_host toy_client toy_library u_json redis_pendings
      no_wait toy_client-IsClient set_local (λ n w. refl) toy_aead-IsAead u_json-IsJson toy_random
      pending_apart

-- a provider whose two stores are replaced
abbrev pub base : Provider Content ℤ
base = record {
  name = "git";
  variables = ("key", record { label = "Key"; type = text; hint = ""; required = true }) ∷ [];
  server_base_url = "https://here";
  creds_store = redis_token_store toy_redis_host toy_client toy_library u_json redis_tokens;
  pending_store =
      redis_pending_store toy_redis_host toy_client toy_library u_json redis_pendings no_wait;
  doc = "";
  token_timeout = pos 300_000_000_000;
  entry_path = "/credentials/git/entry";
  submit_path = "/credentials/git/submit";
}

abbrev pub form_of : String → Request (Value ℤ)
form_of key = record {
  method = "POST";
  path = "/";
  header = λ k. "";
  query = λ k. if k == "t" then "s" else "";
  form = λ k. if k == "key" then key else "";
  form_error = ok tt;
  context = nobody;
}

abbrev pub here : Provider Content ℤ
here =
    on_redis toy_redis_host toy_client toy_library u_json redis_tokens redis_pendings no_wait base

pub colonless : (a : String) → occurs 58 (safe_name toy_library a) ≡ 0
unfolding safe_name
colonless a = occurs-marks 58 (codes a) (λ e. omega (arith, e)) (λ e. omega (arith, e))

abbrev one_entry : Content
one_entry k = if k == redis_pending_key toy_library "p:" "s" then some [] else none

abbrev submit : Request (Value ℤ) → Content → Response String × Content
submit = handle_submit toy_library here

handle_submit_once_on_redis_example :
    let w' = (submit (form_of "x") one_entry).1 in
    ((submit (form_of "y") w').0.status ≡ 400)
    × ((store : TokenStore Content (Value ℤ))
        → submit (form_of "y") w'
          ≡ handle_submit toy_library (with_store toy_library here store) (form_of "y") w')
unfolding pop atomic_pop decrypt redis_pending_key safe_name
handle_submit_once_on_redis_example =
    handle_submit_once_on_redis toy_redis_host toy_client toy_library u_json redis_tokens
      redis_pendings no_wait base toy_client-IsClient set_local (λ n w. refl) toy_aead-IsAead
      u_json-IsJson toy_random pending_apart colonless (form_of "x") (form_of "y") one_entry entry_u
      (λ e. cc) refl refl

abbrev no_entry : Content
no_entry k = none

abbrev pending_here : PendingStore Content ℤ (Value ℤ)
pending_here =
    redis toy_redis_host toy_client toy_library u_json redis_pendings no_wait toy_client-IsClient
      set_local (λ n w. refl)

-- One replica creates an entry, and two others come for it.
abbrev race : List (Call Content (Value ℤ))
race =
    Call.create "s" entry_u (pos 60)
    ∷ Call.pop "s"
    ∷ Call.pop "s"
    ∷ Call.set_result "s" none (pos 1)
    ∷ []

pop_le_create_example : handed pending_here "s" race no_entry ≤ made pending_here "s" race
unfolding create encrypt
pop_le_create_example =
    pop_le_create toy_redis_host toy_client toy_library u_json redis_pendings no_wait
      toy_client-IsClient set_local (λ n w. refl) toy_aead-IsAead u_json-IsJson toy_random
      pending_apart "s" race no_entry (refl, (tt, (tt, (tt, tt)))) refl
