-- ===== src/Store/Redis/Pending/Entries.antt =====
-- `RedisPendingStore` of store/redis.go keeps the contract of a pending store, over a server that
-- answers every read and an authenticated cipher.
use mcp_authkit_go.Base.{ℕ, String, Option, none, some, ◌≡◌, ◌≢◌, ap, sym, arith, eq_iff}
use mcp_authkit_go.Base.{inl, inr, length, ◌==◌, Bool-cases, Option-cases, if◌then◌else◌}
use mcp_authkit_go.Base.Int.{ℤ, pos, ltb_ℤ}
use mcp_authkit_go.Base.Action.{Action, Result, ok, err, Result-cases}
use mcp_authkit_go.Host.{Bytes, Host, Library, Json, IsAead, IsJson}
use mcp_authkit_go.Value.{GoMap}
use mcp_authkit_go.Store.{IsPendingStore}
use mcp_authkit_go.Store.Encryption.{encrypt, decrypt}
use mcp_authkit_go.Store.Encryption.Laws.{decrypt-encrypt}
use mcp_authkit_go.Store.Memory.{duration_seconds}
use mcp_authkit_go.Store.Redis.{
  Client, RedisPendingStore, redis_pending_key, redis_done_key, Content, IsClient,
}
use mcp_authkit_go.Store.Redis.Keys.{kinds_apart}
use mcp_authkit_go.Store.Redis.Pending.{create, pop, set_result, redis_pending_store}
use mcp_authkit_go.Store.Redis.Pending.Laws.{atomic_pop_lem}

module _ {W N V : Type 0} (host : Host W) (client : Client W) (lib : Library)
    (json : Json (GoMap V)) (s : RedisPendingStore)
    (wait : String → N → Action W (Result (GoMap V))) {content : W → Content}
    (h : IsClient client content)
    (set_local : (k j : String) (b : Bytes) (d : ℤ) (w : W)
      → k ≢ j
      → content (client.set k b d w).1 j ≡ content w j)
    (random_kept : (n : ℕ) (w : W) → content (host.random n w).1 ≡ content w) where
  abbrev key : String → String
  key = redis_pending_key lib s.prefix

  -- what a stored text is worth: nothing if it cannot be decrypted
  abbrev pub decoded : Option Bytes → GoMap V
  decoded none = none
  decoded (some b) = elim (decrypt json s.cipher b) [ ok v ↦ v | err _ ↦ none ]

  -- the entry of a key, of a server whose live keys hold `c`
  abbrev pub entry_at : Content → String → GoMap V
  entry_at c k = decoded (c (key k))

  encrypt-kept : (m : GoMap V) (w : W) → content (encrypt host json s.cipher m w).1 ≡ content w
  unfolding encrypt
  encrypt-kept m w = ground (arith, random_kept s.cipher.aead.nonce_size w)

  module _ {stored : GoMap V → GoMap V} (aead : IsAead s.cipher.aead) (js : IsJson json stored)
      (full : (n : ℕ) (w : W) (b : Bytes) → (host.random n w).0 ≡ ok b → length b ≡ n)
      (apart : (a b : String) → a ≢ b → key a ≢ key b) where
    popped : (k : String) (w : W) → (pop host client lib json s k w).0 ≡ ok (entry_at (content w) k)
    unfolding pop
    popped k w =
        let at = (atomic_pop_lem host client lib json s h (key k) w).0 in
        elim (Option-cases (content w (key k))) [
          | inl nothing ↦ ground (arith, at)
          | inr (b, there) ↦ elim (Result-cases (decrypt json s.cipher b)) [
            | inl (v, good) ↦ ground (arith, at)
            | inr (e, bad) ↦ ground (arith, at)
          ]
        ]

    taken :
        (k j : String) (w : W)
        → entry_at (content (pop host client lib json s k w).1) j
          ≡ (if k == j then none else entry_at (content w) j)
    unfolding pop
    taken k j w =
        let left =
          ap (λ (c : Content). decoded (c (key j)))
            (atomic_pop_lem host client lib json s h (key k) w).1 in
        elim (Bool-cases (k == j)) [
          | inl same ↦
              let e = ap key ((eq_iff k j).0 same) in
              ground (arith, left, same, eq_iff (key k) (key j))
          | inr other ↦
              let ne : key k ≢ key j = apart k j (λ e. ground (arith, eq_iff k j)) in
              ground (arith, left, other, eq_iff (key k) (key j))
        ]

    created :
        (k j : String) (m : GoMap V) (ttl : ℤ) (w : W)
        → (create host client lib json s k m ttl w).0 ≡ ok tt
        → entry_at (content (create host client lib json s k m ttl w).1) j
          ≡ (if k == j then stored m else entry_at (content w) j)
    unfolding create
    created k j m ttl w e = elim (Result-cases (encrypt host json s.cipher m w).0) [
      | inr (x, bad) ↦ absurd (ground arith)
      | inl (b, good) ↦
          let w' = (encrypt host json s.cipher m w).1 in
          let back = decrypt-encrypt json s.cipher host aead js full m w b good in
          let put =
            ap (λ (c : Content). decoded (c (key j)))
              (h.content-set (key k) b (duration_seconds ttl) w' (ground arith)) in
          let kept = ap (λ (c : Content). decoded (c (key j))) (encrypt-kept m w) in
          elim (Bool-cases (k == j)) [
            | inl same ↦
                let at = ap key ((eq_iff k j).0 same) in
                ground (arith, put, same, back, eq_iff (key k) (key j))
            | inr other ↦
                let ne : key k ≢ key j = apart k j (λ x. ground (arith, eq_iff k j)) in
                ground (arith, put, kept, other, eq_iff (key k) (key j))
          ]
    ]

    resulted :
        (k j : String) (m : GoMap V) (ttl : ℤ) (w : W)
        → entry_at (content (set_result host client lib json s k m ttl w).1) j
          ≡ entry_at (content w) j
    unfolding set_result
    resulted k j m ttl w =
        let w' = (encrypt host json s.cipher m w).1 in
        let kept = ap (λ (c : Content). c (key j)) (encrypt-kept m w) in
        let d = duration_seconds (if ltb_ℤ (pos 0) ttl then ttl else pos 120) in
        let ne : redis_done_key lib s.prefix k ≢ key j =
          λ e. (kinds_apart lib s.prefix j k).2 (sym e) in
        ap decoded (elim (Result-cases (encrypt host json s.cipher m w).0) [
          | inr (e, bad) ↦ ground (arith, kept)
          | inl (b, good) ↦
              ground (arith, kept, set_local (redis_done_key lib s.prefix k) (key j) b d w' ne)
        ])

    -- `RedisPendingStore` is a map from keys to entries, of which a `Pop` takes one off, where
    -- different keys have different Redis keys, and the server, the cipher, the random source and
    -- JSON keep their contracts. It may fail to write, results do not touch the entries, and a
    -- value comes back in the form that JSON gives.
    pub redis_pending_store-IsPendingStore :
        IsPendingStore
          (redis_pending_store host client lib json s wait)
          (λ ttl. Unit)
          stored
          (λ w. entry_at (content w))
    redis_pending_store-IsPendingStore = record {
      pop_lem = popped;
      entry-pop = taken;
      entry-create_self = λ k m ttl w lasts e. ground (arith, created k k m ttl w e, eq_iff k k);
      entry-create_ne = λ k j m ttl w ne e. ground (arith, created k j m ttl w e, eq_iff k j);
      entry-set_result = resulted;
    }
