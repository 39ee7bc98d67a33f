-- ===== src/Store/Redis/Pending/Answer.antt =====
-- A result that one replica sets with `SetResult` of store/redis.go, and the wait of another for
-- it.
use mcp_authkit_go.Base.{ℕ, suc, String, Option, none, some, true, ◌≡◌, ap, ◌∙◌, arith, eq_iff}
use mcp_authkit_go.Base.{inl, inr, length, if◌then◌else◌}
use mcp_authkit_go.Base.Int.{ℤ, pos, ◌+ℤ◌, ltb_ℤ}
use mcp_authkit_go.Base.Action.{Action, Result, ok, Result-cases}
use mcp_authkit_go.Host.{Bytes, Host, Library, Json, IsAead, IsJson}
use mcp_authkit_go.Value.{GoMap}
use mcp_authkit_go.Store.Encryption.{encrypt, decrypt}
use mcp_authkit_go.Store.Encryption.Laws.{decrypt-encrypt}
use mcp_authkit_go.Store.Memory.{duration_seconds}
use mcp_authkit_go.Store.File.Pending.{Pause}
use mcp_authkit_go.Store.Redis.{
  Client, RedisPendingStore, redis_done_key, Content, put_key, IsClient,
}
use mcp_authkit_go.Store.Redis.Pending.{is_there, atomic_pop, poll, set_result, wait_for_result}
use mcp_authkit_go.Store.Redis.Pending.Laws.{atomic_pop_lem}

module _ {W V : Type 0} (host : Host W) (client : Client W) (lib : Library) (json : Json (GoMap V))
    (s : RedisPendingStore) {content : W → Content} (h : IsClient client content)
    {stored : GoMap V → GoMap V} (aead : IsAead s.cipher.aead) (js : IsJson json stored)
    (full : (n : ℕ) (w : W) (b : Bytes) → (host.random n w).0 ≡ ok b → length b ≡ n)
    (exists_lem : (k : String) (w : W) (b : Bytes)
      → content w k ≡ some b
      → is_there host client lib json s (client.exists k w).0 ≡ true)
    (content-exists : (k : String) (w : W) → content (client.exists k w).1 ≡ content w)
    (content-now : (w : W) → content (host.now w).1 ≡ content w) where
  -- What the server holds after a result was set.
  set_result_lem :
      (k : String) (m : GoMap V) (ttl : ℤ) (w : W)
      → (set_result host client lib json s k m ttl w).0 ≡ ok tt
      → (b : Bytes) × (content
            (set_result host client lib json s k m ttl w).1
            (redis_done_key lib s.prefix k)
          ≡ some b)
        × (decrypt json s.cipher b ≡ ok (stored m))
  unfolding set_result
  set_result_lem k m ttl w e =
      let w1 = (encrypt host json s.cipher m w).1 in
      let key = redis_done_key lib s.prefix k in
      let d = duration_seconds (if ltb_ℤ (pos 0) ttl then ttl else pos 120) in
      elim (Result-cases (encrypt host json s.cipher m w).0) [
        | inr (x, bad) ↦ absurd (ground arith)
        | inl (b, good) ↦
            let put = ap (λ (c : Content). c key) (h.content-set key b d w1 (ground arith)) in
            (
              b,
              ground (arith, put, eq_iff key key),
              decrypt-encrypt json s.cipher host aead js full m w b good,
            )
      ]

  -- A round of a wait takes what the server holds.
  poll-some :
      (fuel : ℕ) (pause : ℤ → Action W Pause) (key : String) (deadline : ℤ) (w : W) (b : Bytes)
      (m : GoMap V)
      → content w key ≡ some b
      → decrypt json s.cipher b ≡ ok m
      → ((poll host client lib json s (suc fuel) pause key deadline w).0 ≡ some (ok m))
        × (content (poll host client lib json s (suc fuel) pause key deadline w).1
            ≡ put_key (content w) key none)
  unfolding poll
  poll-some fuel pause key deadline w b m there back =
      let found = exists_lem key w b there in
      let w1 = (client.exists key w).1 in
      let kept = content-exists key w in
      let held : content w1 key ≡ some b = ap (λ (c : Content). c key) kept ∙ there in
      let (got, left) = atomic_pop_lem host client lib json s h key w1 in
      let taken = atomic_pop host client lib json s key w1 in
      let at : poll host client lib json s (suc fuel) pause key deadline w
          ≡ (some taken.0, taken.1) =
        ground (arith, found) in
      (
        ground (arith, at, got, held, back),
        ap (λ (x : Option (Result (GoMap V)) × W). content x.1) at
            ∙ left
            ∙ ap (λ (c : Content). put_key c key none) kept,
      )

  -- A result that was set and is still on the server, as what any replica's calls may have left
  -- there, is what a wait for its key returns in its first round, as what JSON keeps of it, without
  -- a pause; the wait takes it off the server, and touches no other key. The server answers reads
  -- and the existence test, and the cipher, the random source and JSON keep their contracts.
  pub set_result-wait_for_result :
      (k : String) (m : GoMap V) (ttl : ℤ) (w w' : W)
      → (set_result host client lib json s k m ttl w).0 ≡ ok tt
      → content w' (redis_done_key lib s.prefix k)
        ≡ content (set_result host client lib json s k m ttl w).1 (redis_done_key lib s.prefix k)
      → (fuel : ℕ) (pause : ℤ → Action W Pause) (timeout : ℤ)
      → ((wait_for_result host client lib json s (suc fuel) pause k timeout w').0
          ≡ some (ok (stored m)))
        × (content (wait_for_result host client lib json s (suc fuel) pause k timeout w').1
            ≡ put_key (content w') (redis_done_key lib s.prefix k) none)
  unfolding wait_for_result
  set_result-wait_for_result k m ttl w w' e same fuel pause timeout =
      let key = redis_done_key lib s.prefix k in
      let (b, there, back) = set_result_lem k m ttl w e in
      let w1 = (host.now w').1 in
      let kept = content-now w' in
      let held : content w1 key ≡ some b = ap (λ (c : Content). c key) kept ∙ same ∙ there in
      let (got, left) =
        poll-some fuel pause key ((host.now w').0 +ℤ timeout) w1 b (stored m) held back in
      (got, left ∙ ap (λ (c : Content). put_key c key none) kept)
