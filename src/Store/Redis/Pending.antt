-- ===== src/Store/Redis/Pending.antt =====
-- store/redis.go: the methods of `RedisPendingStore`. `fuel` bounds the rounds of a wait, and
-- `none` means that it ran out.
pub mod Laws
pub mod Waits
pub mod Entries
pub mod Runs
pub mod Answer
use mcp_authkit_go.Base.{
  ℕ, zero, suc, String, Option, none, some, Bool, true, false, ltb, if◌then◌else◌,
}
use mcp_authkit_go.Base.Int.{ℤ, pos, ◌+ℤ◌, ltb_ℤ}
use mcp_authkit_go.Base.Action.{Action, Error, Result, ok, err, wrapped, pure, ◌>>=◌, ◌>>◌}
use mcp_authkit_go.Host.{Host, Library, Json}
use mcp_authkit_go.Value.{GoMap}
use mcp_authkit_go.Store.{PendingStore}
use mcp_authkit_go.Store.Encryption.{encrypt, decrypt}
use mcp_authkit_go.Store.Memory.{duration_seconds, after}
use mcp_authkit_go.Store.File.{file_poll_interval}
use mcp_authkit_go.Store.File.Pending.{Pause, next_round}
use mcp_authkit_go.Store.Redis.{
  Reply, value, Exec, Client, RedisPendingStore, redis_pending_key, redis_done_key,
}

module _ {W V : Type 0} (host : Host W) (client : Client W) (lib : Library) (json : Json (GoMap V))
    (s : RedisPendingStore) where
  unfoldable pub create : String → GoMap V → ℤ → Action W (Result (Unit {0}))
  create key metadata ttl = do
    sealed ← encrypt host json s.cipher metadata
    elim sealed [
      | err e ↦ pure (err e)
      | ok b ↦ client.set (redis_pending_key lib s.prefix key) b (duration_seconds ttl)
    ]

  unfoldable pub get_and_decrypt : String → Action W (Result (GoMap V))
  get_and_decrypt redis_key = do
    reply ← client.get redis_key
    elim reply [
      | Reply.nil ↦ pure (ok none)
      | Reply.failed e ↦ pure (err (wrapped "store: redis GET" e))
      | value sealed ↦ elim (decrypt json s.cipher sealed) [
        | ok v ↦ pure (ok v)
        | err _ ↦ do client.del redis_key; pure (ok none)
      ]
    ]

  unfoldable pub get : String → Action W (Result (GoMap V))
  unfolding get_and_decrypt
  get key = get_and_decrypt (redis_pending_key lib s.prefix key)

  -- getCmd.Bytes() and the decryption
  abbrev popped : Reply → Result (GoMap V)
  popped Reply.nil = ok none
  popped (Reply.failed e) = err (wrapped "store: redis GET in pop" e)
  popped (value sealed) = elim (decrypt json s.cipher sealed) [ ok v ↦ ok v | err _ ↦ ok none ]

  unfoldable pub atomic_pop : String → Action W (Result (GoMap V))
  atomic_pop redis_key = do
    answer ← client.get_and_del redis_key
    pure (elim answer.0 [
      | Exec.failed e ↦ err (wrapped "store: redis pipelined pop" e)
      | Exec.nil ↦ popped answer.1
      | Exec.done ↦ popped answer.1
    ])

  unfoldable pub pop : String → Action W (Result (GoMap V))
  unfolding atomic_pop
  pop key = atomic_pop (redis_pending_key lib s.prefix key)

  unfoldable pub set_result : String → GoMap V → ℤ → Action W (Result (Unit {0}))
  set_result key result ttl = do
    sealed ← encrypt host json s.cipher result
    elim sealed [
      | err e ↦ pure (err e)
      | ok b ↦
          client.set (redis_done_key lib s.prefix key) b
            (duration_seconds (if ltb_ℤ (pos 0) ttl then ttl else pos 120))
    ]

  -- exists, err := …; err == nil && exists > 0
  abbrev pub is_there : Result ℕ → Bool
  is_there (ok n) = ltb 0 n
  is_there (err _) = false

  -- the loop of `WaitForResult`
  unfoldable pub poll : ℕ → (ℤ → Action W Pause) → String → ℤ → Action W (Option (Result (GoMap V)))
  unfolding next_round
  poll zero pause redis_key deadline w = (none, w)
  poll (suc fuel) pause redis_key deadline w =
      let again = poll fuel pause redis_key deadline in
      (do
        found ← client.exists redis_key
        elim (is_there found) [
          | true ↦ do result ← atomic_pop redis_key; pure (some result)
          | false ↦ next_round host pause deadline again
        ])
        w

  unfoldable pub wait_for_result :
      ℕ → (ℤ → Action W Pause) → String → ℤ → Action W (Option (Result (GoMap V)))
  wait_for_result fuel pause key timeout = do
    now ← host.now
    poll fuel pause (redis_done_key lib s.prefix key) (now +ℤ timeout)

  -- The store as its interface; a wait is given, since it takes what others do meanwhile.
  abbrev pub redis_pending_store :
      {N : Type 0} → (String → N → Action W (Result (GoMap V))) → PendingStore W N V
  redis_pending_store wait = record {
    create = create;
    get = get;
    pop = pop;
    set_result = set_result;
    wait_for_result = wait;
  }
