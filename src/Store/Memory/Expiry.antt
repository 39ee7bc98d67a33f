-- ===== src/Store/Memory/Expiry.antt =====
-- The lifetime of a pending entry of `MemoryPendingStore`: `Create`, `Get` and `Pop`.
use mcp_authkit_go.Base.{String, none, ◌≡◌, ◌≢◌, arith, eq_iff, if◌then◌else◌}
use mcp_authkit_go.Base.Int.{ℤ, ◌+ℤ◌}
use mcp_authkit_go.Base.Dict.{lookup-insert, lookup-remove}
use mcp_authkit_go.Base.Action.{ok}
use mcp_authkit_go.Value.{GoMap}
use mcp_authkit_go.Store.Memory.{
  MemoryPendingStore, PendingEntry, duration_seconds, after, clone_map,
}
use mcp_authkit_go.Store.Memory.Pending.{create, get, pop}

module _ {V : Type 0} (key : String) (s : MemoryPendingStore V) where
  abbrev entry_for : ℤ → GoMap V → ℤ → PendingEntry V
  entry_for t m ttl = record { metadata = clone_map m; expires = t +ℤ duration_seconds ttl }

  -- What `Create` stored under a key at time `t`, `Get` and `Pop` of the key return as a copy until
  -- the time to live is over, and nil at every later time.
  pub get-pop-create :
      (t now : ℤ) (m : GoMap V) (ttl : ℤ)
      → let s' = (create t key m ttl s).1 in
        let expected =
          if after now (t +ℤ duration_seconds ttl) then ok none else ok (clone_map (clone_map m)) in
        ((get now key s').0 ≡ expected) × ((pop now key s').0 ≡ expected)
  unfolding create get pop
  get-pop-create t now m ttl =
      let found = lookup-insert key key (entry_for t m ttl) s.pending in
      (ground (arith, found, eq_iff key key), ground (arith, found, eq_iff key key))

  -- `Pop` returns what `Get` returns, and after a `Pop` of a key, at whatever time, both return
  -- nil.
  pub pop_once :
      (now later : ℤ)
      → ((pop now key s).0 ≡ (get now key s).0)
        × ((pop later key (pop now key s).1).0 ≡ ok none)
        × ((get later key (pop now key s).1).0 ≡ ok none)
  unfolding get pop
  pop_once now later =
      let gone = lookup-remove key key s.pending in
      (ground arith, ground (arith, gone, eq_iff key key), ground (arith, gone, eq_iff key key))

  -- `Create`, `Get` and `Pop` of one key do not change what `Get` returns for another.
  pub get-other :
      (other : String) (t now : ℤ) (m : GoMap V) (ttl : ℤ)
      → key ≢ other
      → ((get now other (create t key m ttl s).1).0 ≡ (get now other s).0)
        × ((get now other (get t key s).1).0 ≡ (get now other s).0)
        × ((get now other (pop t key s).1).0 ≡ (get now other s).0)
  unfolding create get pop
  get-other other t now m ttl ne =
      let kept = lookup-remove key other s.pending in
      (
        ground (arith, lookup-insert key other (entry_for t m ttl) s.pending, eq_iff key other),
        ground (arith, kept, eq_iff key other),
        ground (arith, kept, eq_iff key other),
      )
