-- ===== src/Store/Memory/Entries.antt =====
-- `MemoryPendingStore` of store/memory.go keeps the contract of a pending store.
use mcp_authkit_go.Base.{
  ℕ, ◌*◌, ◌^◌, ◌<◌, String, false, Option, none, some, ◌≡◌, ap, ◌∙◌, arith, eq_iff, inl, inr,
}
use mcp_authkit_go.Base.{Option-cases, if◌then◌else◌}
use mcp_authkit_go.Base.Dict.{lookup, lookup-insert, lookup-remove}
use mcp_authkit_go.Base.Int.{ℤ, pos, negsuc, ◌+ℤ◌, pos-+ℤ}
use mcp_authkit_go.Base.Action.{Action, Result, ok}
use mcp_authkit_go.Value.{GoMap}
use mcp_authkit_go.Store.{PendingStore, IsPendingStore}
use mcp_authkit_go.Store.Memory.{
  MemoryPendingStore, PendingEntry, duration_seconds, after, clone_map,
}
use mcp_authkit_go.Store.Memory.Pending.{create, get, pop, set_result, find_or_make, fire}
use mcp_authkit_go.Store.Memory.Lifetime.{duration_seconds-exact}

-- The store and the clock, in nanoseconds since the epoch.
pub record Timed (V : Type 0) : Type 0 where
  pub clock : ℕ
  pub store : MemoryPendingStore V

-- The times to live that are not negative and do not overflow.
abbrev pub Lasts : ℤ → Type 0
Lasts (pos n) = n * 1_000_000_000 < 2 ^ 63
Lasts (negsuc n) = ⊥

-- Such an entry is live when it was created.
alive : (t : ℕ) (ttl : ℤ) → Lasts ttl → after (pos t) (pos t +ℤ duration_seconds ttl) ≡ false
alive t (pos n) fits =
    let exact =
      ap (λ d. pos t +ℤ d) (duration_seconds-exact n fits) ∙ pos-+ℤ t (n * 1_000_000_000) in
    rw exact (ground arith)
alive t (negsuc n) fits = elim fits [ ]

module _ {V : Type 0} where
  abbrev at_clock : {A : Type 0} → (ℤ → Action (MemoryPendingStore V) A) → Action (Timed V) A
  at_clock m w = ((m (pos w.clock) w.store).0, record w { store = (m (pos w.clock) w.store).1 })

  -- The store as its interface. A call of `SetResult` that would never return is `stuck`, and a
  -- wait is given, since it takes what others do meanwhile.
  abbrev pub memory_pending_store :
      {N : Type 0}
      → Action (Timed V) (Result (Unit {0}))
      → (String → N → Action (Timed V) (Result (GoMap V)))
      → PendingStore (Timed V) N V
  memory_pending_store stuck wait = record {
    create = λ k m ttl. at_clock (λ now. create now k m ttl);
    get = λ k. at_clock (λ now. get now k);
    pop = λ k. at_clock (λ now. pop now k);
    set_result = λ k m ttl w. elim (set_result k m w.store) [
      | none ↦ stuck w
      | some s ↦ (ok tt, record w { store = s })
    ];
    wait_for_result = wait;
  }

  abbrev live : ℕ → Option (PendingEntry V) → GoMap V
  live now none = none
  live now (some e) = if after (pos now) e.expires then none else clone_map e.metadata

  -- What a `Pop` of the key hands out now.
  abbrev pub entry : Timed V → String → GoMap V
  entry w k = live w.clock (lookup k w.store.pending)

  pub set_result-pending :
      (k : String) (m : GoMap V) (s s' : MemoryPendingStore V)
      → set_result k m s ≡ some s'
      → s'.pending ≡ s.pending
  unfolding set_result find_or_make fire
  set_result-pending k m s s' e = elim (Option-cases (lookup k s.done)) [
    | inl fresh ↦ ground arith
    | inr (p, there) ↦ ground arith
  ]

  module _ {N : Type 0} (stuck : Action (Timed V) (Result (Unit {0})))
      (wait : String → N → Action (Timed V) (Result (GoMap V)))
      (kept : (w : Timed V) (k : String) → entry (stuck w).1 k ≡ entry w k) where
    -- `MemoryPendingStore` is a map from keys to copies of entries, of which a `Pop` takes one off,
    -- where a `SetResult` that never returns leaves the entries alone. An entry is live when it was
    -- created for times to live that are not negative and do not overflow. Results do not touch the
    -- entries.
    pub memory_pending_store-IsPendingStore :
        IsPendingStore (memory_pending_store stuck wait) Lasts (λ m. clone_map (clone_map m)) entry
    unfolding create pop
    memory_pending_store-IsPendingStore = record {
      pop_lem = λ k w. ground arith;
      entry-pop = λ k j w. ground (arith, lookup-remove k j w.store.pending);
      entry-create_self = λ k m ttl w lasts e.
          let new : PendingEntry V = record {
            metadata = clone_map m;
            expires = pos w.clock +ℤ duration_seconds ttl;
          } in
          ground
            (arith, lookup-insert k k new w.store.pending, eq_iff k k, alive w.clock ttl lasts);
      entry-create_ne = λ k j m ttl w ne e.
          let new : PendingEntry V = record {
            metadata = clone_map m;
            expires = pos w.clock +ℤ duration_seconds ttl;
          } in
          ground (arith, lookup-insert k j new w.store.pending, eq_iff k j);
      entry-set_result = λ k j m ttl w. elim (Option-cases (set_result k m w.store)) [
        | inl blocked ↦ ground (arith, kept w j)
        | inr (s, sent) ↦ ground (arith, set_result-pending k m w.store s sent)
      ];
    }
