-- ===== src/Store/Factory/Laws.antt =====
-- What store/factory.go guarantees of the stores that it builds.
use mcp_authkit_go.Base.{◌≡◌, arith, eq_iff}
use mcp_authkit_go.Base.Action.{ok}
use mcp_authkit_go.Host.{Host, Library, Crypto}
use mcp_authkit_go.Store.Factory.{
  FactoryOptions, Stores, memory, Connector, require_encryption_key, create_file_stores,
  create_redis_stores, create_stores,
}

module _ {W Block : Type 0} (host : Host W) (lib : Library) (crypto : Crypto Block)
    (connector : Connector W) (opts : FactoryOptions) (w : W) where
  -- Where no key is configured, `CreateStores` returns memory stores or an error, never a store
  -- that persists, and it changes nothing.
  pub create_stores_unkeyed :
      host.getenv "STORAGE_ENCRYPTION_KEY" w ≡ ""
      → host.getenv "STORAGE_ENCRYPTION_KEY_PATH" w ≡ ""
      → ((s : Stores W) → (create_stores host lib crypto connector opts w).0 ≡ ok s → s ≡ memory)
        × ((create_stores host lib crypto connector opts w).1 ≡ w)
  unfolding create_stores create_file_stores create_redis_stores require_encryption_key
  create_stores_unkeyed no_key no_path =
      let k = eq_iff (host.getenv "STORAGE_ENCRYPTION_KEY" w) "" in
      let p = eq_iff (host.getenv "STORAGE_ENCRYPTION_KEY_PATH" w) "" in
      (λ s e. ground (arith, k, p), ground (arith, k, p))
