-- ===== src/Store/Memory/Signal/Delivery.antt =====
-- What the protocol promises: `SetResult` never blocks, a result goes to one waiter, it is not
-- lost, and it is gone once it is consumed.
use mcp_authkit_go.Base.{
  ℕ, String, true, Option, none, some, [], ◌≡◌, ◌≢◌, arith, eq_iff, inl, inr, Option-cases,
}
use mathlib.Core.Option
use native.Mathlib.Decide.{ℕ_discrete}
use mcp_authkit_go.Base.Dict.{lookup, lookup-nil, lookup-insert, lookup-remove}
use mcp_authkit_go.Base.Action.{ok}
use mcp_authkit_go.Value.{GoMap}
use mcp_authkit_go.Store.Memory.{MemoryPendingStore, clone_map}
use mcp_authkit_go.Store.Memory.Pending.{
  find_or_make, fire, set_result, wait_begin, wait_receive, wait_consume,
}
use mcp_authkit_go.Store.Memory.Signal.{
  Waiter, selecting, received, returned, System, place, Step, signal, begin, receive, consume,
  time_out, cancel, Reach, here, next, Inv,
}
use mcp_authkit_go.Store.Memory.Signal.Safety.{find_or_make-Inv, Reach-Inv}

set_result-ne-none :
    {V : Type 0} {t : System V}
    → Inv t
    → (key : String) (result : GoMap V) → set_result key result t.store ≢ none
unfolding set_result
set_result-ne-none {t} inv key result e = ground (arith, inv.silent (find_or_make key t.store).0)

-- In every reachable state `SetResult` returns: its send, made with the mutex held, finds room.
pub set_result-returns :
    {V : Type 0} {t : System V}
    → Reach t
    → (key : String) (result : GoMap V)
    → (s : MemoryPendingStore V) × (set_result key result t.store ≡ some s)
set_result-returns {t} r key result = elim (Option-cases (set_result key result t.store)) [
  | inl blocked ↦ absurd (set_result-ne-none (Reach-Inv r) key result blocked)
  | inr found ↦ found
]

-- In every reachable state at most one waiter holds a result for a key, received and not yet
-- consumed, and the map still has the entry that it was received from.
pub received_by_one :
    {V : Type 0} {t : System V}
    → Reach t
    → (key : String) (i j p q : ℕ) (a b : GoMap V) → t.waiters i ≡ received key p a
    → t.waiters j ≡ received key q b
    → (i ≡ j) × (p ≡ q) × (lookup key t.store.done ≡ some p)
received_by_one r key i j p q a b e f =
    let inv = Reach-Inv r in
    let (at_p, _, _) = inv.holding i key p a e in
    let (at_q, _, _) = inv.holding j key q b f in
    let same : p ≡ q = cc in (inv.exclusive i j key key p a b e (rw same f), same, at_p)

-- A waiter that has received the result of the entry at `p`, and not consumed it.
abbrev Holder : {V : Type 0} → (ℕ → Waiter V) → String → ℕ → Type 0
Holder {V} waiters k p = (i : ℕ) × (r : GoMap V) × (waiters i ≡ received k p r)

-- An entry that was signalled and whose channel is empty has its result with a waiter.
abbrev IsClaimed : {V : Type 0} → System V → Type 0
IsClaimed t =
    (k : String) (p : ℕ)
    → lookup k t.store.done ≡ some p
    → (t.store.heap p).fired ≡ true
    → (t.store.heap p).ch ≡ []
    → Holder t.waiters k p

module _ {V : Type 0} {t : System V} (inv : Inv t) (claimed : IsClaimed t) where
  find_or_make-IsClaimed :
      (key : String) → IsClaimed (record t { store = (find_or_make key t.store).1 })
  unfolding find_or_make
  find_or_make-IsClaimed key k p e f g =
      claimed k p (ground (arith, lookup-insert key k t.store.next t.store.done))
        (ground (arith, lookup-insert key k t.store.next t.store.done))
        (ground (arith, lookup-insert key k t.store.next t.store.done))

  fire-IsClaimed :
      (p : ℕ) (result : GoMap V) (s : MemoryPendingStore V)
      → fire p result t.store ≡ some s
      → IsClaimed (record t { store = s })
  unfolding fire
  fire-IsClaimed p result s e k q f g h =
      claimed k q (ground arith) (ground (arith, inv.silent q)) (ground (arith, inv.silent q))

  -- A waiter that holds no result of an entry goes elsewhere.
  move-IsClaimed :
      (i : ℕ) (x : Waiter V)
      → ((k : String) (p : ℕ) (r : GoMap V) → t.waiters i ≢ received k p r)
      → IsClaimed (record t { waiters = place t.waiters i x })
  move-IsClaimed i x free k p e f g =
      let (j, r, at_j) = claimed k p e f g in (j, r, ground (arith, free k p r))

  receive-IsClaimed :
      (i : ℕ) (key : String) (p : ℕ) (result : GoMap V) (s : MemoryPendingStore V)
      → t.waiters i ≡ selecting key p
      → wait_receive p t.store ≡ some (result, s)
      → IsClaimed (record { store = s; waiters = place t.waiters i (received key p result) })
  unfolding wait_receive
  receive-IsClaimed i key p result s at_i e k q f g h = elim (ℕ_discrete p q) [
    | yes same ↦ (i, result, ground (arith, inv.own_key i key k q))
    | no other ↦
        let (j, r, at_j) = claimed k q (ground arith) (ground arith) (ground arith) in
        (j, r, ground arith)
  ]

  consume-IsClaimed :
      (i : ℕ) (key : String) (p : ℕ) (result : GoMap V)
      → t.waiters i ≡ received key p result
      → IsClaimed (record {
        store = wait_consume key t.store;
        waiters = place t.waiters i (returned (ok result));
      })
  unfolding wait_consume
  consume-IsClaimed i key p result at_i k q f g h =
      let old : lookup k t.store.done ≡ some q = ground (arith, lookup-remove key k t.store.done) in
      let (j, r, at_j) = claimed k q old g h in
      (j, r, ground (arith, lookup-remove key k t.store.done, eq_iff key k))

Step-IsClaimed : {V : Type 0} {t u : System V} → Step t u → Inv t → IsClaimed t → IsClaimed u
Step-IsClaimed {t} (signal key result s e same) inv c = rw same (
    fire-IsClaimed (find_or_make-Inv inv key) (find_or_make-IsClaimed inv c key)
      (find_or_make key t.store).0 result s (unfold set_result in e))
Step-IsClaimed {t} (begin i key e same) inv c = rw same (
    unfold wait_begin in
    move-IsClaimed (find_or_make-Inv inv key) (find_or_make-IsClaimed inv c key) i _
      (λ k p r f. cc))
Step-IsClaimed (receive i key p result s e f same) inv c =
    rw same (receive-IsClaimed inv c i key p result s e f)
Step-IsClaimed (consume i key p result e same) inv c =
    rw same (consume-IsClaimed inv c i key p result e)
Step-IsClaimed (time_out i key p e same) inv c = rw same (move-IsClaimed inv c i _ (λ k q r f. cc))
Step-IsClaimed (cancel i key p x e same) inv c = rw same (move-IsClaimed inv c i _ (λ k q r f. cc))

Reach-IsClaimed : {V : Type 0} {t : System V} → Reach t → IsClaimed t
Reach-IsClaimed here = λ k p e f g. cc (lookup-nil {V = ℕ} k)
Reach-IsClaimed (next r st) = Step-IsClaimed st (Reach-Inv r) (Reach-IsClaimed r)

-- The call of `WaitForResult` that begins in a store and looks at the channel at once.
abbrev pub wait_now :
    {V : Type 0} → String → MemoryPendingStore V → Option (GoMap V × MemoryPendingStore V)
wait_now key s = let (p, s') = wait_begin key s in wait_receive p s'

-- No signal is lost: in every reachable state in which no waiter holds a result for the key, a
-- `SetResult` leaves a store in which a wait that begins receives a result at once. It is the copy
-- of the result that was set, if the key had no entry.
pub wait-set_result :
    {V : Type 0} {t : System V}
    → Reach t
    → (key : String) (result : GoMap V) (s : MemoryPendingStore V)
    → ((i p : ℕ) (r : GoMap V) → t.waiters i ≢ received key p r)
    → set_result key result t.store ≡ some s
    → (wait_now key s ≢ none)
      × (lookup key t.store.done ≡ none
          → Option.map (λ x. x.0) (wait_now key s) ≡ some (clone_map result))
unfolding set_result wait_begin wait_receive find_or_make fire
wait-set_result {t} r key result s free e =
    let waiting =
      λ (p : ℕ) (at_p : lookup key t.store.done ≡ some p) (f : (t.store.heap p).fired ≡ true)
          (g : (t.store.heap p).ch ≡ []).
        let (i, x, at_i) = Reach-IsClaimed r key p at_p f g in free i p x at_i in
    let added = lookup-insert key key t.store.next t.store.done in
    elim (Option-cases (lookup key t.store.done)) [
      | inl new ↦
          (λ f. ground (arith, added, eq_iff key key), λ g. ground (arith, added, eq_iff key key))
      | inr (p, old) ↦
          (λ f. ground (arith, waiting p old, (Reach-Inv r).silent p), λ g. ground arith)
    ]

-- A result is consumed: after the last critical section of a waiter, a wait for the same key that
-- begins finds nothing.
pub wait-consume :
    {V : Type 0} {t : System V}
    → Reach t
    → (i : ℕ) (key : String) (p : ℕ) (result : GoMap V) → t.waiters i ≡ received key p result
    → (lookup key t.store.done ≡ some p) × (wait_now key (wait_consume key t.store) ≡ none)
unfolding wait_begin wait_receive wait_consume find_or_make
wait-consume {t} r i key p result e = (
  ((Reach-Inv r).holding i key p result e).0,
  ground (arith, lookup-remove key key t.store.done, eq_iff key key),
)
