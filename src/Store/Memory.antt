-- ===== src/Store/Memory.antt =====
-- store/memory.go: the state of `MemoryTokenStore` and `MemoryPendingStore`, and `cloneMap`. The
-- mutex makes each critical section one step. A `*doneEntry` is an address on a heap, since a
-- waiter keeps one that the map has dropped.
pub mod Tokens
pub mod Pending
pub mod Expiry
pub mod Lifetime
pub mod Entries
pub mod Signal
use mcp_authkit_go.Base.{ℕ, String, Bool, false, Option, none, some, List, [], ◌∷◌, ◌≡◌, refl, ◌∙◌}
use mcp_authkit_go.Base.{arith, ◌==◌, if◌then◌else◌}
use mcp_authkit_go.Base.Int.{ℤ, pos, ◌*ℤ◌, ltb_ℤ, wrap_64}
use mcp_authkit_go.Base.Dict.{Dict, lookup, insert, lookup-insert, lookup-nil, lookup-cons}
use mcp_authkit_go.Value.{GoMap, SameMap}

pub record MemoryTokenStore (V : Type 0) : Type 0 where
  pub content : Dict (GoMap V)

pub record PendingEntry (V : Type 0) : Type 0 where
  pub metadata : GoMap V
  -- nanoseconds since the epoch
  pub expires : ℤ

pub record DoneEntry (V : Type 0) : Type 0 where
  -- what the channel of capacity 1 holds
  pub ch : List (GoMap V)
  pub result : GoMap V
  pub fired : Bool

pub record MemoryPendingStore (V : Type 0) : Type 0 where
  pub pending : Dict (PendingEntry V)
  pub done : Dict ℕ
  pub heap : ℕ → DoneEntry V
  -- the first address that is free
  pub next : ℕ

-- time.Duration(n) * time.Second, with the wrap-around of int64
unfoldable pub duration_seconds : ℤ → ℤ
duration_seconds n = wrap_64 (n *ℤ pos 1_000_000_000)

-- t.After(u)
abbrev pub after : ℤ → ℤ → Bool
after t u = ltb_ℤ u t

module _ {V : Type 0} where
  abbrev pub new_memory_token_store : MemoryTokenStore V
  new_memory_token_store = record { content = [] }

  -- &doneEntry{ch: make(chan map[string]any, 1)}
  abbrev pub fresh_entry : DoneEntry V
  fresh_entry = record { ch = []; result = none; fired = false }

  abbrev pub new_memory_pending_store : MemoryPendingStore V
  new_memory_pending_store = record { pending = []; done = []; heap = λ _. fresh_entry; next = 0 }

  -- the loop of `cloneMap`: every key is written once, in some order
  unfoldable pub copy_entries : Dict V → Dict V
  copy_entries [] = []
  copy_entries ((k, v) ∷ m) = insert k v (copy_entries m)

  unfoldable pub clone_map : GoMap V → GoMap V
  clone_map none = none
  clone_map (some m) = some (copy_entries m)

  pub lookup-copy_entries : (k : String) (m : Dict V) → lookup k (copy_entries m) ≡ lookup k m
  unfolding copy_entries
  lookup-copy_entries k [] = refl
  lookup-copy_entries k ((j, v) ∷ m) = rw (lookup-insert, lookup-cons, lookup-copy_entries k m)

  pub clone_map-SameMap : (m : GoMap V) → SameMap (clone_map m) m
  unfolding clone_map
  clone_map-SameMap none = tt
  clone_map-SameMap (some m) = λ k. lookup-copy_entries k m
