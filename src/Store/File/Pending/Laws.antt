-- ===== src/Store/File/Pending/Laws.antt =====
-- How long the wait of store/file.go takes.
use mcp_authkit_go.Base.{
  ℕ, zero, suc, ◌+◌, ◌*◌, ◌≤◌, ◌<◌, String, Option, none, some, ◌≡◌, ◌⊎◌, inl, inr, refl,
}
use mcp_authkit_go.Base.{arith, Bool-cases, Option-cases}
use mcp_authkit_go.Base.Int.{ℤ, pos, ◌+ℤ◌, pos-+ℤ}
use mcp_authkit_go.Base.Action.{Action, Error, Result, ok, err, Result-cases}
use mcp_authkit_go.Host.{Host, Library, Json}
use mcp_authkit_go.Value.{GoMap, Value}
use mcp_authkit_go.Store.Memory.{after}
use mcp_authkit_go.Store.File.{FilePendingStore, file_poll_interval, done_path}
use mcp_authkit_go.Store.File.Pending.{
  RecordJson, Pause, elapsed, cancelled, next_round, read_record, poll, wait_for_result,
}

-- A clock that no call turns back, and a sleep that takes the time it is given.
pub record IsClock {W : Type 0} (now : Action W ℤ) (pause : ℤ → Action W Pause) (clock : W → ℕ)
    : Type 0 where
  pub now_lem : (w : W) → (now w).0 ≡ pos (clock w)
  pub clock-now : (w : W) → clock w ≤ clock (now w).1
  pub clock-pause :
      (n : ℕ) (w : W) → (pause (pos n) w).0 ≡ elapsed → clock w + n ≤ clock (pause (pos n) w).1

Pause-cases : (p : Pause) → (p ≡ elapsed) ⊎ ((e : Error) × (p ≡ cancelled e))
Pause-cases elapsed = inl refl
Pause-cases (cancelled e) = inr (e, refl)

-- The number of rounds that fit before a deadline, a half second each.
abbrev pub Fits : ℕ → ℕ → ℕ → Type 0
Fits deadline now rounds = deadline < now + rounds * 500_000_000

-- Where the next round returns after the sleep, this one returns.
pub next_round-returns :
    {W A : Type 0} (host : Host W) (pause : ℤ → Action W Pause) {clock : W → ℕ}
    → IsClock host.now pause clock
    → (again : Action W (Option (Result (GoMap A)))) (deadline : ℕ) (w : W)
    → ((w' : W)
        → clock w + 500_000_000 ≤ clock w'
        → clock w ≤ deadline
        → (r : Result (GoMap A)) × ((again w').0 ≡ some r))
    → (r : Result (GoMap A)) × ((next_round host pause (pos deadline) again w).0 ≡ some r)
unfolding next_round
next_round-returns host pause {clock} ticks again deadline w next =
    let w1 = (host.now w).1 in
    let time = ticks.now_lem w in
    let on = ticks.clock-now w in
    elim (Bool-cases (after (host.now w).0 (pos deadline))) [
      | inl late ↦ (ok none, ground arith)
      | inr early ↦ elim (Pause-cases (pause file_poll_interval w1).0) [
        | inr (e, stopped) ↦ (err e, ground arith)
        | inl slept ↦
            let w2 = (pause file_poll_interval w1).1 in
            let past = ticks.clock-pause 500_000_000 w1 slept in
            let (r, found) = next w2 (ground arith) (ground arith) in (r, ground arith)
      ]
    ]

module _ {W N : Type 0} (host : Host W) (lib : Library) (json : Json (GoMap (Value N)))
    (records : RecordJson (Value N)) (s : FilePendingStore) (pause : ℤ → Action W Pause)
    {clock : W → ℕ} (ticks : IsClock host.now pause clock)
    (reads : (p : String) (w : W)
      → clock w ≤ clock (read_record host lib json records s p w).1) where
  abbrev Returns : ℕ → ℕ → String → W → Type 0
  Returns fuel deadline path w =
      (r : Result (GoMap (Value N))) × ((poll host lib json records s fuel pause path (pos deadline)
          w).0
        ≡ some r)

  poll-round :
      (fuel deadline : ℕ) (path : String) (w : W)
      → ((w' : W)
          → clock w + 500_000_000 ≤ clock w'
          → clock w ≤ deadline
          → Returns fuel deadline path w')
      → Returns (suc fuel) deadline path w
  unfolding poll
  poll-round fuel deadline path w next =
      let w1 = (read_record host lib json records s path w).1 in
      let read = reads path w in
      let (r, rest) =
        next_round-returns host pause ticks
          (poll host lib json records s fuel pause path (pos deadline)) deadline w1
          (λ w' past early. next w' (omega (arith, past, read)) (omega (arith, early, read))) in
      elim (Result-cases (read_record host lib json records s path w).0) [
        | inr (e, bad) ↦ (r, ground arith)
        | inl (found, got) ↦ elim (Option-cases found) [
          | inl nothing ↦ (r, ground arith)
          | inr (entry, is) ↦ (ok entry.metadata, ground arith)
        ]
      ]

  -- A round for each half second up to the deadline, and one more.
  poll-Returns :
      (fuel deadline : ℕ) (path : String) (w : W)
      → Fits deadline (clock w) fuel
      → Returns (suc fuel) deadline path w
  poll-Returns zero deadline path w fits =
      poll-round zero deadline path w (λ w' past early. absurd (omega (arith, fits, early)))
  poll-Returns (suc n) deadline path w fits =
      poll-round (suc n) deadline path w
        (λ w' past early. poll-Returns n deadline path w' (omega (arith, fits, past)))

  -- A wait ends: with a clock that runs, a read that does not turn it back and a sleep that lasts
  -- as long as it is told, `WaitForResult` with a timeout of `timeout` nanoseconds returns after at
  -- most one round for each half second of the timeout and two more, with a result, nil or an
  -- error.
  pub wait_for_result-returns :
      (fuel timeout : ℕ) (key : String) (w : W)
      → timeout < fuel * 500_000_000
      → (r : Result (GoMap (Value N))) × ((wait_for_result host lib json records s
            (suc fuel)
            pause
            key
            (pos timeout)
            w).0
          ≡ some r)
  unfolding wait_for_result
  wait_for_result-returns fuel timeout key w enough =
      let on = ticks.clock-now w in
      let now = ticks.now_lem w in
      let deadline : ((host.now w).0 +ℤ pos timeout) ≡ pos (clock w + timeout) =
        ground (arith, now, pos-+ℤ (clock w) timeout) in
      let (r, found) =
        poll-Returns fuel (clock w + timeout) (done_path lib s key) (host.now w).1
          (omega (arith, on, enough)) in
      (r, ground (arith, found, deadline))
