-- ===== src/Tests/Signals.antt =====
-- Runs of store/memory.go's waits, and the waits that poll.
use mathlib.Core.Option
use mcp_authkit_go.Base.{
  ℕ, zero, suc, Option, none, some, [], ◌∷◌, ◌≡◌, ◌≢◌, refl, arith, eqb, if◌then◌else◌,
}
use mcp_authkit_go.Base.Dict.{lookup, insert}
use mcp_authkit_go.Value.{GoMap}
use mcp_authkit_go.Store.Memory.{MemoryPendingStore, clone_map}
use mcp_authkit_go.Store.Memory.Pending.{set_result, find_or_make, fire, wait_begin, wait_receive}
use mcp_authkit_go.Store.Memory.Signal.{
  System, selecting, received, signal, begin, receive, start, Reach, here, next, Inv, place,
}
use mcp_authkit_go.Store.Memory.Signal.Safety.{Reach-Inv}
use mcp_authkit_go.Store.Memory.Signal.Delivery.{set_result-returns, wait_now, wait-set_result}

abbrev result_of : GoMap ℕ
result_of = some (("n", 7) ∷ [])

abbrev waiting : System ℕ
waiting = record {
  store = (wait_begin "k" start.store).1;
  waiters = λ j. if eqb 0 j then selecting "k" 0 else start.waiters j;
}

Reach-waiting : Reach waiting
unfolding wait_begin find_or_make lookup
Reach-waiting = next here (begin 0 "k" refl refl)

abbrev or_same : {A : Type 0} → A → Option A → A
or_same a none = a
or_same a (some b) = b

abbrev signalled : System ℕ
signalled = record waiting {
  store = or_same waiting.store (set_result "k" result_of waiting.store);
}

Reach-signalled : Reach signalled
unfolding wait_begin find_or_make lookup insert set_result fire
Reach-signalled = next Reach-waiting (signal "k" result_of signalled.store refl refl)

abbrev taken : GoMap ℕ × MemoryPendingStore ℕ
taken = or_same (none, signalled.store) (wait_receive 0 signalled.store)

abbrev holding : System ℕ
holding = record {
  store = taken.1;
  waiters = place signalled.waiters 0 (received "k" 0 (clone_map result_of));
}

Reach-holding : Reach holding
unfolding wait_begin find_or_make lookup insert set_result fire wait_receive
Reach-holding =
    next Reach-signalled (receive 0 "k" 0 (clone_map result_of) holding.store refl refl refl)

-- Three steps of a goroutine that waits and one that sets the result.
Reach-Inv_example : Inv holding
Reach-Inv_example = Reach-Inv Reach-holding

set_result-returns_example :
    (s : MemoryPendingStore ℕ) × (set_result "k" result_of holding.store ≡ some s)
set_result-returns_example = set_result-returns Reach-holding "k" result_of

free : (i p : ℕ) (r : GoMap ℕ) → waiting.waiters i ≢ received "k" p r
free zero p r e = cc
free (suc i) p r e = ground arith

wait-set_result_example :
    (wait_now "k" signalled.store ≢ none)
    × (lookup "k" waiting.store.done ≡ none
        → Option.map (λ x. x.0) (wait_now "k" signalled.store) ≡ some (clone_map result_of))
unfolding wait_begin find_or_make lookup insert set_result fire
wait-set_result_example = wait-set_result Reach-waiting "k" result_of signalled.store free refl
