-- ===== src/Store/Memory/Tokens.antt =====
-- store/memory.go: the methods of `MemoryTokenStore`, and that they keep the contract of a store.
use mcp_authkit_go.Base.{String, none, some, arith, eq_iff}
use mcp_authkit_go.Base.Dict.{lookup, insert, remove, lookup-insert, lookup-remove}
use mcp_authkit_go.Base.Action.{Action, Result, ok}
use mcp_authkit_go.Value.{GoMap}
use mcp_authkit_go.Store.{TokenStore, IsTokenStore}
use mcp_authkit_go.Store.Memory.{MemoryTokenStore, clone_map}

module _ {V : Type 0} where
  unfoldable pub get : String → Action (MemoryTokenStore V) (Result (GoMap V))
  get sub s = elim (lookup sub s.content) [ none ↦ (ok none, s) | some v ↦ (ok (clone_map v), s) ]

  unfoldable pub set : String → GoMap V → Action (MemoryTokenStore V) (Result (Unit {0}))
  set sub value s = (ok tt, record s { content = insert sub (clone_map value) s.content })

  unfoldable pub delete : String → Action (MemoryTokenStore V) (Result (Unit {0}))
  delete sub s = (ok tt, record s { content = remove sub s.content })

  abbrev pub memory_token_store : TokenStore (MemoryTokenStore V) V
  memory_token_store = record { get = get; set = set; delete = delete }

  -- `MemoryTokenStore` is a map from subjects to values: `Get` after `Set` returns a copy of a copy
  -- of the value, after `Delete` it returns nil, and other subjects are left alone.
  pub memory_token_store-IsTokenStore :
      IsTokenStore memory_token_store (λ m. clone_map (clone_map m))
  unfolding get set delete
  memory_token_store-IsTokenStore = record {
    get-set_self =
        λ sub m w _. ground (arith, lookup-insert sub sub (clone_map m) w.content, eq_iff sub sub);
    get-set_ne = λ sub other m w ne _.
        ground (arith, lookup-insert sub other (clone_map m) w.content, eq_iff sub other);
    get-delete_self = λ sub w _. ground (arith, lookup-remove sub sub w.content, eq_iff sub sub);
    get-delete_ne =
        λ sub other w ne _. ground (arith, lookup-remove sub other w.content, eq_iff sub other);
  }
