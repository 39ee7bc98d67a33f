-- ===== src/Store/Memory/Signal/Safety.antt =====
-- The invariant of the signalling protocol, kept by every step.
use mcp_authkit_go.Base.{ℕ, String, some, ◌≡◌, refl, arith, eq_iff}
use mcp_authkit_go.Base.Dict.{lookup, lookup-nil, lookup-insert, lookup-remove}
use mcp_authkit_go.Base.Action.{Result, ok}
use mcp_authkit_go.Value.{GoMap}
use mcp_authkit_go.Store.Memory.{MemoryPendingStore}
use mcp_authkit_go.Store.Memory.Pending.{
  find_or_make, fire, set_result, wait_begin, wait_receive, wait_consume,
}
use mcp_authkit_go.Store.Memory.Signal.{
  idle, selecting, received, returned, System, place, Step, signal, begin, receive, consume,
  time_out, cancel, start, Reach, here, next, Inv,
}

pub Inv-start : {V : Type 0} → Inv (start {V = V})
Inv-start = record {
  allocated = λ k p e. cc (lookup-nil {V = ℕ} k);
  one_key = λ k j p e _. cc (lookup-nil {V = ℕ} k);
  silent = λ p e. refl;
  single = λ p. omega arith;
  in_range = λ i k p e. cc;
  own_key = λ i k j p e _. cc;
  listed = λ i k p e _. cc;
  holding = λ i k p r e. cc;
  exclusive = λ i j k l p r q e _. cc;
}

module _ {V : Type 0} {t : System V} (inv : Inv t) where
  open inv use {allocated, one_key, silent, single, in_range, own_key, listed, holding, exclusive}

  -- the entry of a key is found or added, and no waiter moves
  pub find_or_make-Inv : (key : String) → Inv (record t { store = (find_or_make key t.store).1 })
  unfolding find_or_make
  find_or_make-Inv key = record {
    allocated =
        λ k p e. ground (arith, lookup-insert key k t.store.next t.store.done, allocated k p);
    one_key = λ k j p e f. ground (
      arith,
      lookup-insert key k t.store.next t.store.done,
      lookup-insert key j t.store.next t.store.done,
      eq_iff key k,
      eq_iff key j,
      allocated k p,
      allocated j p,
      one_key k j p,
    );
    silent = λ p e. ground (arith, silent p);
    single = λ p. ground (arith, single p);
    in_range = λ i k p e. ground (arith, in_range i k p);
    own_key = λ i k j p e f.
        ground
          (arith, lookup-insert key j t.store.next t.store.done, in_range i k p, own_key i k j p);
    listed = λ i k p e f. ground (
      arith,
      lookup-insert key k t.store.next t.store.done,
      eq_iff key k,
      in_range i k p,
      listed i k p,
    );
    holding = λ i k p r e. ground (
      arith,
      lookup-insert key k t.store.next t.store.done,
      eq_iff key k,
      holding i k p r,
      allocated k p,
    );
    exclusive = λ i j k l p r q e f. exclusive i j k l p r q e f;
  }

  -- after it, the map holds the address that it returns
  find_or_make-listed :
      (key : String)
      → lookup key (find_or_make key t.store).1.done ≡ some (find_or_make key t.store).0
  unfolding find_or_make
  find_or_make-listed key =
      ground (arith, lookup-insert key key t.store.next t.store.done, eq_iff key key)

  fire-Inv :
      (key : String) (p : ℕ) (result : GoMap V) (s : MemoryPendingStore V)
      → lookup key t.store.done ≡ some p
      → fire p result t.store ≡ some s
      → Inv (record t { store = s })
  unfolding fire
  fire-Inv key p result s at_p e = record {
    allocated = λ k q f. ground (arith, allocated k q);
    one_key = λ k j q f g. ground (arith, one_key k j q);
    silent = λ q f. ground (arith, silent q);
    single = λ q. ground (arith, single q, silent q);
    in_range = λ i k q f. ground (arith, in_range i k q);
    own_key = λ i k j q f g. ground (arith, own_key i k j q);
    listed = λ i k q f g. ground (arith, listed i k q, own_key i k key q);
    holding = λ i k q r f. ground (arith, holding i k q r);
    exclusive = λ i j k l q r r' f g. exclusive i j k l q r r' f g;
  }

  begin-Inv :
      (i : ℕ) (key : String) (p : ℕ)
      → t.waiters i ≡ idle
      → lookup key t.store.done ≡ some p
      → Inv (record t { waiters = place t.waiters i (selecting key p) })
  begin-Inv i key p e at_p = record {
    allocated = allocated;
    one_key = one_key;
    silent = silent;
    single = single;
    in_range = λ j k q f. ground (arith, in_range j k q, allocated key p);
    own_key = λ j k l q f g. ground (arith, own_key j k l q, one_key key l p);
    listed = λ j k q f g. ground (arith, listed j k q);
    holding = λ j k q r f. ground (arith, holding j k q r);
    exclusive = λ j h k l q r r' f g. ground (arith, exclusive j h k l q r r');
  }

  receive-Inv :
      (i : ℕ) (key : String) (p : ℕ) (result : GoMap V) (s : MemoryPendingStore V)
      → t.waiters i ≡ selecting key p
      → wait_receive p t.store ≡ some (result, s)
      → Inv (record { store = s; waiters = place t.waiters i (received key p result) })
  unfolding wait_receive
  receive-Inv i key p result s at_i e = record {
    allocated = λ k q f. ground (arith, allocated k q);
    one_key = λ k j q f g. ground (arith, one_key k j q);
    silent = λ q f. ground (arith, silent q);
    single = λ q. ground (arith, single q, silent q);
    in_range = λ j k q f. ground (arith, in_range j k q);
    own_key = λ j k l q f g. ground (arith, own_key j k l q);
    listed = λ j k q f g. ground (arith, listed j k q);
    holding = λ j k q r f. ground (arith, holding j k q r, listed i key p, silent p, single p);
    exclusive = λ j h k l q r r' f g.
        ground (arith, exclusive j h k l q r r', holding j k q r, holding h l q r');
  }

  consume-Inv :
      (i : ℕ) (key : String) (p : ℕ) (result : GoMap V)
      → t.waiters i ≡ received key p result
      → Inv (record {
        store = wait_consume key t.store;
        waiters = place t.waiters i (returned (ok result));
      })
  unfolding wait_consume
  consume-Inv i key p result at_i = record {
    allocated = λ k q f. ground (arith, lookup-remove key k t.store.done, allocated k q);
    one_key = λ k j q f g.
        ground (
          arith,
          lookup-remove key k t.store.done,
          lookup-remove key j t.store.done,
          one_key k j q,
        );
    silent = silent;
    single = single;
    in_range = λ j k q f. ground (arith, in_range j k q);
    own_key = λ j k l q f g. ground (arith, lookup-remove key l t.store.done, own_key j k l q);
    listed = λ j k q f g. ground (
      arith,
      lookup-remove key k t.store.done,
      eq_iff key k,
      listed j k q,
      holding i key p result,
    );
    holding = λ j k q r f. ground (
      arith,
      lookup-remove key k t.store.done,
      eq_iff key k,
      holding j k q r,
      holding i key p result,
      exclusive i j key k p result r,
    );
    exclusive = λ j h k l q r r' f g. ground (arith, exclusive j h k l q r r');
  }

  -- a waiter returns with no result
  leave-Inv :
      (i : ℕ) (key : String) (p : ℕ) (r : Result (GoMap V))
      → t.waiters i ≡ selecting key p
      → Inv (record t { waiters = place t.waiters i (returned r) })
  leave-Inv i key p r at_i = record {
    allocated = allocated;
    one_key = one_key;
    silent = silent;
    single = single;
    in_range = λ j k q f. ground (arith, in_range j k q);
    own_key = λ j k l q f g. ground (arith, own_key j k l q);
    listed = λ j k q f g. ground (arith, listed j k q);
    holding = λ j k q r f. ground (arith, holding j k q r);
    exclusive = λ j h k l q r r' f g. ground (arith, exclusive j h k l q r r');
  }

pub Step-Inv : {V : Type 0} {t u : System V} → Step t u → Inv t → Inv u
Step-Inv (signal key result s e same) inv = rw same (
    fire-Inv (find_or_make-Inv inv key) key _ result s (find_or_make-listed inv key)
      (unfold set_result in e))
Step-Inv (begin i key e same) inv = rw same (
    unfold wait_begin in
    begin-Inv (find_or_make-Inv inv key) i key _ e (find_or_make-listed inv key))
Step-Inv (receive i key p result s e f same) inv = rw same (receive-Inv inv i key p result s e f)
Step-Inv (consume i key p result e same) inv = rw same (consume-Inv inv i key p result e)
Step-Inv (time_out i key p e same) inv = rw same (leave-Inv inv i key p _ e)
Step-Inv (cancel i key p x e same) inv = rw same (leave-Inv inv i key p _ e)

-- Every state that is reached from the start, by `SetResult` and `WaitForResult` of any number of
-- goroutines, is well formed: an entry has one key and holds at most one result, nothing is in its
-- channel before it fired, and a result that was received belongs to one waiter.
pub Reach-Inv : {V : Type 0} {t : System V} → Reach t → Inv t
Reach-Inv here = Inv-start
Reach-Inv (next r st) = Step-Inv st (Reach-Inv r)
