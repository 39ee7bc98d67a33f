-- ===== src/Tests/World.antt =====
-- A world of the two stores of store/memory.go, whose clock stands at 0, and providers over it.
use mcp_authkit_go.Base.{String, Option, none, some, [], ◌∷◌, ◌≡◌, ◌∙◌, arith, eq_iff}
use mcp_authkit_go.Base.{◌<>◌, Option-cases, inl, inr}
use mcp_authkit_go.Base.Int.{ℤ, pos}
use mcp_authkit_go.Base.Dict.{lookup, lookup-remove}
use mcp_authkit_go.Base.Action.{Action, ElicitParams, message, Result, ok, err}
use mcp_authkit_go.Host.{Read, Removal, Host}
use mcp_authkit_go.Value.{KeepsPlain, SameMap-KeepsPlain, Value, str, float64, GoMap, SameMap}
use mcp_authkit_go.Store.{TokenStore, PendingStore, IsTokenStore, IsOneShot}
use mcp_authkit_go.Store.Memory.{
  MemoryTokenStore, MemoryPendingStore, new_memory_pending_store, clone_map, copy_entries,
  lookup-copy_entries,
}
use mcp_authkit_go.Store.Memory.Tokens.{memory_token_store, memory_token_store-IsTokenStore}
use mcp_authkit_go.Store.Memory.Pending.{
  create, get, pop, set_result, wait_begin, wait_receive, wait_consume,
}
use mcp_authkit_go.Store.Memory.Entries.{set_result-pending}
use mcp_authkit_go.Middleware.{User, Context, Request}
use mcp_authkit_go.OauthProvider.{Provider}

pub record World : Type 0 where
  pub tokens : MemoryTokenStore (Value ℤ)
  pub pending : MemoryPendingStore (Value ℤ)

abbrev pub world_host : Host World
world_host = record {
  now = λ w. (pos 0, w);
  getenv = λ k w. "";
  log = λ s w. (tt, w);
  random = λ n w. (err (message "none"), w);
  read_file = λ p w. (Read.missing, w);
  remove = λ p w. (Removal.missing, w);
  mkdir_all = λ p w. (ok tt, w);
  create_temp = λ d w. (err (message "no files"), w);
  write = λ p b w. (err (message "no files"), w);
  close = λ p w. (ok tt, w);
  rename = λ p q w. (err (message "no files"), w);
}

abbrev on_tokens : {A : Type 0} → Action (MemoryTokenStore (Value ℤ)) A → Action World A
on_tokens m w = ((m w.tokens).0, record w { tokens = (m w.tokens).1 })

abbrev pub on_pending : {A : Type 0} → Action (MemoryPendingStore (Value ℤ)) A → Action World A
on_pending m w = ((m w.pending).0, record w { pending = (m w.pending).1 })

abbrev pub world_tokens : TokenStore World (Value ℤ)
world_tokens = record {
  get = λ sub. on_tokens (memory_token_store.get sub);
  set = λ sub m. on_tokens (memory_token_store.set sub m);
  delete = λ sub. on_tokens (memory_token_store.delete sub);
}

pub world_tokens-IsTokenStore : IsTokenStore world_tokens (λ m. clone_map (clone_map m))
world_tokens-IsTokenStore =
    let memory : IsTokenStore (memory_token_store {V = Value ℤ}) (λ m. clone_map (clone_map m)) =
      memory_token_store-IsTokenStore in
    record {
      get-set_self = λ sub m w e. memory.get-set_self sub m w.tokens e;
      get-set_ne = λ sub other m w ne e. memory.get-set_ne sub other m w.tokens ne e;
      get-delete_self = λ sub w e. memory.get-delete_self sub w.tokens e;
      get-delete_ne = λ sub other w ne e. memory.get-delete_ne sub other w.tokens ne e;
    }

abbrev settle_signal :
    Option (MemoryPendingStore (Value ℤ))
    → Action (MemoryPendingStore (Value ℤ)) (Result (Unit {0}))
settle_signal none s = (err (message "blocked"), s)
settle_signal (some s') s = (ok tt, s')

-- one look at the channel
abbrev look : String → Action (MemoryPendingStore (Value ℤ)) (Result (GoMap (Value ℤ)))
look key s =
    let (p, s') = wait_begin key s in
    elim (wait_receive p s') [
      | none ↦ (ok none, s')
      | some found ↦ (ok found.0, wait_consume key found.1)
    ]

abbrev pub world_pending : PendingStore World ℤ (Value ℤ)
world_pending = record {
  create = λ k m ttl. on_pending (create (pos 0) k m ttl);
  get = λ k. on_pending (get (pos 0) k);
  pop = λ k. on_pending (pop (pos 0) k);
  set_result = λ k m ttl. on_pending (λ s. settle_signal (set_result k m s) s);
  wait_for_result = λ k n. on_pending (look k);
}

abbrev pub IsGone : String → World → Type 0
IsGone k w = lookup k w.pending.pending ≡ none

pub world_pending-IsOneShot : IsOneShot world_pending IsGone
unfolding pop
world_pending-IsOneShot = record {
  gone-pop = λ k m w e. ground (arith, lookup-remove k k w.pending.pending, eq_iff k k);
  pop-gone = λ k w g. ground arith;
  gone-set_result = λ k j m ttl w g. elim (Option-cases (set_result j m w.pending)) [
    | inl blocked ↦ ground arith
    | inr (s, sent) ↦ ground (arith, set_result-pending j m w.pending s sent)
  ];
}

copy_twice : {V : Type 0} (m : GoMap V) → SameMap (clone_map (clone_map m)) m
unfolding clone_map
copy_twice none = tt
copy_twice (some m) = λ k. lookup-copy_entries k (copy_entries m) ∙ lookup-copy_entries k m

pub plain_twice : KeepsPlain {N = ℤ} (λ m. clone_map (clone_map m))
plain_twice = SameMap-KeepsPlain (λ m. clone_map (clone_map m)) copy_twice

-- a world with one pending entry, of the key "s" and the subject "u"
abbrev pub start_world : World
start_world = record {
  tokens = record { content = [] };
  pending = record new_memory_pending_store {
    pending = ("s", record { metadata = some (("sub", str "u") ∷ []); expires = pos 5 }) ∷ [];
  };
}

abbrev pub nobody : Context (Value ℤ)
nobody = record { user = none; token = none; credentials = none }

abbrev pub user_u : User (Value ℤ)
user_u = record {
  sub = "u";
  preferred_username = "";
  email = "";
  name = "";
  issuer = "";
  claims = [];
}

abbrev pub as_u : Context (Value ℤ)
as_u = record nobody { user = some user_u }

abbrev pub request : (String → String) → (String → String) → Request (Value ℤ)
request query form = record {
  method = "POST";
  path = "/";
  header = λ k. "";
  query = query;
  form = form;
  form_error = ok tt;
  context = nobody;
}

abbrev pub answer_of : GoMap (Value ℤ)
answer_of = some (("access_token", str "t") ∷ ("expires_in", float64 (pos 100)) ∷ [])

abbrev pub world_provider : Provider World ℤ
world_provider = record {
  name = "git";
  build_auth_url = λ state uri. "https://auth/?state=" <> state;
  exchange_code = λ code w. (ok answer_of, w);
  redirect_uri = "https://here/callback";
  callback_path = "/callback";
  token_store = world_tokens;
  pending_store = world_pending;
  refresh_token_fn = none;
  token_timeout = pos 120_000_000_000;
}

abbrev pub accepts : Unit {0} → ElicitParams → Action World (Result String)
accepts session ask w = (ok "accept", w)
