-- ===== src/Store/Redis/Pending/Laws.antt =====
-- `Pop` and the consuming step of a wait, in store/redis.go, hand an entry out once.
use mcp_authkit_go.Base.{String, Option, none, some, ◌≡◌, ◌≢◌, ap, arith, eq_iff}
use mcp_authkit_go.Base.Action.{Result, ok, err}
use mcp_authkit_go.Host.{Bytes, Host, Library, Json}
use mcp_authkit_go.Value.{GoMap}
use mcp_authkit_go.Store.Encryption.{decrypt}
use mcp_authkit_go.Store.Redis.{Client, RedisPendingStore, Content, put_key, IsClient}
use mcp_authkit_go.Store.Redis.Pending.{atomic_pop}

module _ {W V : Type 0} (host : Host W) (client : Client W) (lib : Library) (json : Json (GoMap V))
    (s : RedisPendingStore) {content : W → Content} (h : IsClient client content) where
  abbrev pub opened : Option Bytes → Result (GoMap V)
  opened none = ok none
  opened (some b) = elim (decrypt json s.cipher b) [ ok v ↦ ok v | err _ ↦ ok none ]

  pub atomic_pop_lem :
      (k : String) (w : W)
      → ((atomic_pop host client lib json s k w).0 ≡ opened (content w k))
        × (content (atomic_pop host client lib json s k w).1 ≡ put_key (content w) k none)
  unfolding atomic_pop
  atomic_pop_lem k w = (ground (arith, h.get_and_del_lem k w), h.content-get_and_del k w)

  -- With a server that keeps its contract, a pop returns what the key holds, nil if that cannot be
  -- decrypted; a pop of the key that comes after it, as of a second waiter, returns nil, and a pop
  -- of another key returns what it would have.
  pub atomic_pop_once :
      (k : String) (w : W)
      → ((atomic_pop host client lib json s k w).0 ≡ opened (content w k))
        × ((atomic_pop host client lib json s k (atomic_pop host client lib json s k w).1).0
            ≡ ok none)
        × ((j : String)
            → k ≢ j
            → (atomic_pop host client lib json s j (atomic_pop host client lib json s k w).1).0
              ≡ (atomic_pop host client lib json s j w).0)
  atomic_pop_once k w =
      let (first, left) = atomic_pop_lem k w in
      let w' = (atomic_pop host client lib json s k w).1 in
      (
        first,
        ground (arith, (atomic_pop_lem k w').0, ap (λ (x : Content). x k) left, eq_iff k k),
        λ j ne. ground (
          arith,
          (atomic_pop_lem j w').0,
          (atomic_pop_lem j w).0,
          ap (λ (x : Content). x j) left,
          eq_iff k j,
        ),
      )
