-- ===== src/Store/Redis/Pending/Waits.antt =====
-- How long the wait of store/redis.go takes.
use mcp_authkit_go.Base.{ℕ, zero, suc, ◌+◌, ◌*◌, ◌≤◌, ◌<◌, String, some, ◌≡◌, inl, inr}
use mcp_authkit_go.Base.{arith, Bool-cases}
use mcp_authkit_go.Base.Int.{ℤ, pos, ◌+ℤ◌, pos-+ℤ}
use mcp_authkit_go.Base.Action.{Action, Result}
use mcp_authkit_go.Host.{Host, Library, Json}
use mcp_authkit_go.Value.{GoMap}
use mcp_authkit_go.Store.File.Pending.{Pause}
use mcp_authkit_go.Store.File.Pending.Laws.{IsClock, Fits, next_round-returns}
use mcp_authkit_go.Store.Redis.{Client, RedisPendingStore, redis_done_key}
use mcp_authkit_go.Store.Redis.Pending.{is_there, atomic_pop, poll, wait_for_result}

module _ {W V : Type 0} (host : Host W) (client : Client W) (lib : Library) (json : Json (GoMap V))
    (s : RedisPendingStore) (pause : ℤ → Action W Pause) {clock : W → ℕ}
    (ticks : IsClock host.now pause clock)
    (asks : (k : String) (w : W) → clock w ≤ clock (client.exists k w).1) where
  abbrev Returns : ℕ → ℕ → String → W → Type 0
  Returns fuel deadline key w =
      (r : Result (GoMap V)) × ((poll host client lib json s fuel pause key (pos deadline) w).0
        ≡ some r)

  poll-round :
      (fuel deadline : ℕ) (key : String) (w : W)
      → ((w' : W)
          → clock w + 500_000_000 ≤ clock w'
          → clock w ≤ deadline
          → Returns fuel deadline key w')
      → Returns (suc fuel) deadline key w
  unfolding poll
  poll-round fuel deadline key w next =
      let w1 = (client.exists key w).1 in
      let asked = asks key w in
      let (r, rest) =
        next_round-returns host pause ticks
          (poll host client lib json s fuel pause key (pos deadline)) deadline w1
          (λ w' past early. next w' (omega (arith, past, asked)) (omega (arith, early, asked))) in
      elim (Bool-cases (is_there host client lib json s (client.exists key w).0)) [
        | inr absent ↦ (r, ground arith)
        | inl found ↦ ((atomic_pop host client lib json s key w1).0, ground arith)
      ]

  -- A round for each half second up to the deadline, and one more.
  poll-Returns :
      (fuel deadline : ℕ) (key : String) (w : W)
      → Fits deadline (clock w) fuel
      → Returns (suc fuel) deadline key w
  poll-Returns zero deadline key w fits =
      poll-round zero deadline key w (λ w' past early. absurd (omega (arith, fits, early)))
  poll-Returns (suc n) deadline key w fits =
      poll-round (suc n) deadline key w
        (λ w' past early. poll-Returns n deadline key w' (omega (arith, fits, past)))

  -- A wait ends: with a clock that runs, a query that does not turn it back and a sleep that lasts
  -- as long as it is told, `WaitForResult` with a timeout of `timeout` nanoseconds returns after at
  -- most one round for each half second of the timeout and two more, with a result, nil or an
  -- error.
  pub redis_wait-returns :
      (fuel timeout : ℕ) (key : String) (w : W)
      → timeout < fuel * 500_000_000
      → (r : Result (GoMap V)) × ((wait_for_result host client lib json s
            (suc fuel)
            pause
            key
            (pos timeout)
            w).0
          ≡ some r)
  unfolding wait_for_result
  redis_wait-returns fuel timeout key w enough =
      let on = ticks.clock-now w in
      let now = ticks.now_lem w in
      let deadline : ((host.now w).0 +ℤ pos timeout) ≡ pos (clock w + timeout) =
        ground (arith, now, pos-+ℤ (clock w) timeout) in
      let (r, found) =
        poll-Returns fuel (clock w + timeout) (redis_done_key lib s.prefix key) (host.now w).1
          (omega (arith, on, enough)) in
      (r, ground (arith, found, deadline))
