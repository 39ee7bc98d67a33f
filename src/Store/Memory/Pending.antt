-- ===== src/Store/Memory/Pending.antt =====
-- store/memory.go: the methods of `MemoryPendingStore`. `now` is what `time.Now()` returns, in
-- nanoseconds since the epoch.
use mcp_authkit_go.Base.{ℕ, ◌+◌, String, true, Option, none, some, [], ◌∷◌, ◌++◌}
use mcp_authkit_go.Base.{length, ltb, eqb, if◌then◌else◌}
use mcp_authkit_go.Base.Int.{ℤ, ◌+ℤ◌}
use mcp_authkit_go.Base.Dict.{lookup, insert, remove}
use mcp_authkit_go.Base.Action.{Action, Result, ok}
use mcp_authkit_go.Value.{GoMap}
use mcp_authkit_go.Store.Memory.{
  PendingEntry, DoneEntry, MemoryPendingStore, duration_seconds, after, fresh_entry, clone_map,
}

module _ {V : Type 0} where
  unfoldable pub create :
      ℤ → String → GoMap V → ℤ → Action (MemoryPendingStore V) (Result (Unit {0}))
  create now key metadata ttl s =
      let entry : PendingEntry V = record {
        metadata = clone_map metadata;
        expires = now +ℤ duration_seconds ttl;
      } in
      (ok tt, record s { pending = insert key entry s.pending })

  unfoldable pub get : ℤ → String → Action (MemoryPendingStore V) (Result (GoMap V))
  get now key s = elim (lookup key s.pending) [
    | none ↦ (ok none, record s { pending = remove key s.pending })
    | some entry ↦
        if after now entry.expires
        then (ok none, record s { pending = remove key s.pending })
        else (ok (clone_map entry.metadata), s)
  ]

  unfoldable pub pop : ℤ → String → Action (MemoryPendingStore V) (Result (GoMap V))
  pop now key s =
      let s' = record s { pending = remove key s.pending } in
      elim (lookup key s.pending) [
        | none ↦ (ok none, s')
        | some entry ↦
            if after now entry.expires then (ok none, s') else (ok (clone_map entry.metadata), s')
      ]

  abbrev pub update : (ℕ → DoneEntry V) → ℕ → DoneEntry V → ℕ → DoneEntry V
  update heap p d q = if eqb p q then d else heap q

  -- d, ok := s.done[key]; if !ok { d = &doneEntry{…}; s.done[key] = d }
  unfoldable pub find_or_make : String → Action (MemoryPendingStore V) ℕ
  find_or_make key s = elim (lookup key s.done) [
    | some p ↦ (p, s)
    | none ↦ (
      s.next,
      record s {
        done = insert key s.next s.done;
        heap = update s.heap s.next fresh_entry;
        next = s.next + 1;
      },
    )
  ]

  -- d.ch <- value on the channel of capacity 1: `none` stands for a send that blocks.
  abbrev pub send : DoneEntry V → GoMap V → Option (DoneEntry V)
  send d value = if ltb (length d.ch) 1 then some (record d { ch = d.ch ++ value ∷ [] }) else none

  -- the send of `SetResult` at an address; `none` is a send that blocks with the mutex held
  unfoldable pub fire : ℕ → GoMap V → MemoryPendingStore V → Option (MemoryPendingStore V)
  fire p result s =
      let d = s.heap p in
      if d.fired
      then some s
      else elim (send (record d { fired = true; result = clone_map result }) (clone_map result)) [
        | none ↦ none
        | some d' ↦ some (record s { heap = update s.heap p d' })
      ]

  -- `SetResult`, which ignores its ttl; `none` is a call that never returns
  unfoldable pub set_result :
      String → GoMap V → MemoryPendingStore V → Option (MemoryPendingStore V)
  unfolding find_or_make fire
  set_result key result s = let (p, s') = find_or_make key s in fire p result s'

  -- `WaitForResult` up to its `select`: the address of the entry that it waits on
  unfoldable pub wait_begin : String → Action (MemoryPendingStore V) ℕ
  unfolding find_or_make
  wait_begin key = find_or_make key

  -- the first case of its `select`: `none` while the channel is empty
  unfoldable pub wait_receive : ℕ → MemoryPendingStore V → Option (GoMap V × MemoryPendingStore V)
  wait_receive p s = elim ((s.heap p).ch) [
    | [] ↦ none
    | result ∷ rest ↦
        some (result, record s { heap = update s.heap p (record (s.heap p) { ch = rest }) })
  ]

  -- the critical section that follows: delete(s.done, key)
  unfoldable pub wait_consume : String → MemoryPendingStore V → MemoryPendingStore V
  wait_consume key s = record s { done = remove key s.done }
