-- ===== src/Store/Memory/Lifetime.antt =====
-- The time to live of a pending entry of store/memory.go, in seconds, and the bounds within which
-- the multiplication to nanoseconds is exact.
use mcp_authkit_go.Base.{
  ℕ, ◌+◌, ◌*◌, ◌^◌, ◌≤◌, ◌<◌, String, none, true, false, ◌≡◌, arith, ap, ◌∙◌, ◌-◌,
}
use mcp_authkit_go.Base.Int.{
  pos, negsuc, ◌+ℤ◌, wrap_64, wrap_64-pos, pos-+ℤ, pos-*ℤ, wrap_64-negsuc, +ℤ-negsuc_lt,
}
use mcp_authkit_go.Base.Action.{ok}
use mcp_authkit_go.Value.{GoMap}
use mcp_authkit_go.Store.Memory.{MemoryPendingStore, duration_seconds, after, clone_map}
use mcp_authkit_go.Store.Memory.Pending.{create, get, pop}
use mcp_authkit_go.Store.Memory.Expiry.{get-pop-create}

-- A number of seconds below 9223372037 is multiplied exactly.
pub duration_seconds-exact :
    (n : ℕ) → n * 1_000_000_000 < 2 ^ 63 → duration_seconds (pos n) ≡ pos (n * 1_000_000_000)
unfolding duration_seconds
duration_seconds-exact n h = ap wrap_64 (pos-*ℤ n 1_000_000_000) ∙ wrap_64-pos (n * 1_000_000_000) h

-- Above it the product wraps around, up to twice the range to a negative duration.
pub duration_seconds-wrapped :
    (n : ℕ)
    → 2 ^ 63 ≤ n * 1_000_000_000
    → n * 1_000_000_000 < 2 ^ 64
    → duration_seconds (pos n) ≡ negsuc (2 ^ 64 - n * 1_000_000_000 - 1)
unfolding duration_seconds
duration_seconds-wrapped n low high =
    ap wrap_64 (pos-*ℤ n 1_000_000_000) ∙ wrap_64-negsuc (n * 1_000_000_000) low high

module _ {V : Type 0} (key : String) (s : MemoryPendingStore V) (t now n : ℕ) (m : GoMap V) where
  -- the store after `Create` at time `t` with a time to live of `n` seconds
  abbrev pub created : MemoryPendingStore V
  created = (create (pos t) key m (pos n) s).1

  -- An entry that was created with a time to live of n seconds, at time t in nanoseconds, lives to
  -- the nanosecond: `Get` and `Pop` return a copy up to and at time t + n·10⁹, and nil later, as
  -- long as n·10⁹ is below 2⁶³. From there to 2⁶⁴ the duration wraps around to a negative one, and
  -- the entry is never returned, not even at time t.
  pub create-lifetime :
      (n * 1_000_000_000 < 2 ^ 63
        → now ≤ t + n * 1_000_000_000
        → ((get (pos now) key created).0 ≡ ok (clone_map (clone_map m)))
          × ((pop (pos now) key created).0 ≡ ok (clone_map (clone_map m))))
      × (n * 1_000_000_000 < 2 ^ 63
          → t + n * 1_000_000_000 < now
          → ((get (pos now) key created).0 ≡ ok none) × ((pop (pos now) key created).0 ≡ ok none))
      × (2 ^ 63 ≤ n * 1_000_000_000
          → n * 1_000_000_000 < 2 ^ 64
          → t ≤ now
          → ((get (pos now) key created).0 ≡ ok none) × ((pop (pos now) key created).0 ≡ ok none))
  create-lifetime =
      let (got, popped) = get-pop-create key s (pos t) (pos now) m (pos n) in
      (
        λ fits early.
            let exact =
              ap (λ d. pos t +ℤ d) (duration_seconds-exact n fits) ∙ pos-+ℤ t (n * 1_000_000_000) in
            let live : after (pos now) (pos t +ℤ duration_seconds (pos n)) ≡ false =
              rw exact (ground arith) in
            (ground (arith, got, live), ground (arith, popped, live)),
        λ fits late.
            let exact =
              ap (λ d. pos t +ℤ d) (duration_seconds-exact n fits) ∙ pos-+ℤ t (n * 1_000_000_000) in
            let over : after (pos now) (pos t +ℤ duration_seconds (pos n)) ≡ true =
              rw exact (ground arith) in
            (ground (arith, got, over), ground (arith, popped, over)),
        λ low high later.
            let over : after (pos now) (pos t +ℤ duration_seconds (pos n)) ≡ true =
              rw (duration_seconds-wrapped n low high)
                (+ℤ-negsuc_lt t now (2 ^ 64 - n * 1_000_000_000 - 1) later) in
            (ground (arith, got, over), ground (arith, popped, over)),
      )
