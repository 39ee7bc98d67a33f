-- ===== src/Store/Memory/Signal.antt =====
-- store/memory.go: `SetResult` and `WaitForResult` as steps of many goroutines. A waiter is one
-- call of `WaitForResult`; between its critical sections any other step may happen.
pub mod Safety
pub mod Delivery
use mcp_authkit_go.Base.{
  ℕ, ◌<◌, ◌≤◌, String, true, false, none, some, [], ◌≡◌, ◌≢◌, length, eqb, if◌then◌else◌,
}
use mcp_authkit_go.Base.Dict.{lookup}
use mcp_authkit_go.Base.Action.{Error, Result, ok, err}
use mcp_authkit_go.Value.{GoMap}
use mcp_authkit_go.Store.Memory.{MemoryPendingStore, new_memory_pending_store}
use mcp_authkit_go.Store.Memory.Pending.{set_result, wait_begin, wait_receive, wait_consume}

-- Where a call of `WaitForResult` stands.
pub data Waiter (V : Type 0) : Type 0 where
  idle : Waiter V
  -- in the `select`, with its key and the address of its entry
  selecting : String → ℕ → Waiter V
  -- it has received a result from the channel, and has not locked the mutex again
  received : String → ℕ → GoMap V → Waiter V
  returned : Result (GoMap V) → Waiter V

pub record System (V : Type 0) : Type 0 where
  pub store : MemoryPendingStore V
  pub waiters : ℕ → Waiter V

abbrev pub place : {V : Type 0} → (ℕ → Waiter V) → ℕ → Waiter V → ℕ → Waiter V
place ws i x j = if eqb i j then x else ws j

-- One step of one goroutine. `u` is the state after it.
pub data Step {V : Type 0} (t : System V) (u : System V) : Type 0 where
  signal :
      (key : String) (result : GoMap V) (s : MemoryPendingStore V)
      → set_result key result t.store ≡ some s
      → u ≡ record t { store = s }
      → Step t u
  begin :
      (i : ℕ) (key : String)
      → t.waiters i ≡ idle
      → u ≡ record {
        store = (wait_begin key t.store).1;
        waiters = place t.waiters i (selecting key (wait_begin key t.store).0);
      }
      → Step t u
  receive :
      (i : ℕ) (key : String) (p : ℕ) (result : GoMap V) (s : MemoryPendingStore V)
      → t.waiters i ≡ selecting key p
      → wait_receive p t.store ≡ some (result, s)
      → u ≡ record { store = s; waiters = place t.waiters i (received key p result) }
      → Step t u
  consume :
      (i : ℕ) (key : String) (p : ℕ) (result : GoMap V)
      → t.waiters i ≡ received key p result
      → u ≡ record {
        store = wait_consume key t.store;
        waiters = place t.waiters i (returned (ok result));
      }
      → Step t u
  time_out :
      (i : ℕ) (key : String) (p : ℕ)
      → t.waiters i ≡ selecting key p
      → u ≡ record t { waiters = place t.waiters i (returned (ok none)) }
      → Step t u
  cancel :
      (i : ℕ) (key : String) (p : ℕ) (e : Error)
      → t.waiters i ≡ selecting key p
      → u ≡ record t { waiters = place t.waiters i (returned (err e)) }
      → Step t u

abbrev pub start : {V : Type 0} → System V
start = record { store = new_memory_pending_store; waiters = λ _. idle }

pub data Reach {V : Type 0} : System V → Type 0 where
  here : Reach start
  next : {t u : System V} → Reach t → Step t u → Reach u

-- What the fields of the store and the waiters say of one another.
pub record Inv {V : Type 0} (t : System V) : Type 0 where
  pub allocated : (k : String) (p : ℕ) → lookup k t.store.done ≡ some p → p < t.store.next
  pub one_key :
      (k j : String) (p : ℕ)
      → lookup k t.store.done ≡ some p
      → lookup j t.store.done ≡ some p
      → k ≡ j
  -- a channel holds something only after the one send of its entry
  pub silent : (p : ℕ) → (t.store.heap p).fired ≡ false → (t.store.heap p).ch ≡ []
  pub single : (p : ℕ) → length (t.store.heap p).ch ≤ 1
  pub in_range : (i : ℕ) (k : String) (p : ℕ) → t.waiters i ≡ selecting k p → p < t.store.next
  pub own_key :
      (i : ℕ) (k j : String) (p : ℕ)
      → t.waiters i ≡ selecting k p
      → lookup j t.store.done ≡ some p
      → j ≡ k
  pub listed :
      (i : ℕ) (k : String) (p : ℕ)
      → t.waiters i ≡ selecting k p
      → (t.store.heap p).ch ≢ []
      → lookup k t.store.done ≡ some p
  pub holding :
      (i : ℕ) (k : String) (p : ℕ) (r : GoMap V)
      → t.waiters i ≡ received k p r
      → (lookup k t.store.done ≡ some p)
        × ((t.store.heap p).fired ≡ true)
        × ((t.store.heap p).ch ≡ [])
  pub exclusive :
      (i j : ℕ) (k l : String) (p : ℕ) (r q : GoMap V)
      → t.waiters i ≡ received k p r
      → t.waiters j ≡ received l p q
      → i ≡ j
