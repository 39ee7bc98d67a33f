-- ===== src/Store/Redis/Tokens/Laws.antt =====
-- `RedisTokenStore` of store/redis.go keeps the contract of a store, over a server that answers
-- every read and an authenticated cipher.
use mcp_authkit_go.Base.{ℕ, String, Option, none, some, ◌≡◌, ◌≢◌, refl, ap, ◌∙◌, arith, eq_iff}
use mcp_authkit_go.Base.{inl, inr, length}
use mcp_authkit_go.Base.Int.{pos}
use mcp_authkit_go.Base.Action.{Result, ok, err, Result-cases}
use mcp_authkit_go.Host.{Bytes, Host, Library, Json, IsAead, IsJson}
use mcp_authkit_go.Value.{GoMap}
use mcp_authkit_go.Store.{IsTokenStore}
use mcp_authkit_go.Store.Encryption.{encrypt, decrypt}
use mcp_authkit_go.Store.Encryption.Laws.{decrypt-encrypt}
use mcp_authkit_go.Store.Redis.{
  Client, RedisTokenStore, redis_token_key, Content, put_key, IsClient,
}
use mcp_authkit_go.Store.Redis.Tokens.{get, set, delete, redis_token_store}

module _ {W V : Type 0} (host : Host W) (client : Client W) (lib : Library) (json : Json (GoMap V))
    (s : RedisTokenStore) {content : W → Content} (h : IsClient client content)
    (random_kept : (n : ℕ) (w : W) → content (host.random n w).1 ≡ content w) where
  abbrev pub opened : Option Bytes → Result (GoMap V)
  opened none = ok none
  opened (some b) = elim (decrypt json s.cipher b) [ ok v ↦ ok v | err _ ↦ ok none ]

  pub get_lem :
      (sub : String) (w : W)
      → (get host client lib json s sub w).0 ≡ opened (content w (redis_token_key lib s.prefix sub))
  unfolding get
  get_lem sub w = ground (arith, h.get_lem (redis_token_key lib s.prefix sub) w)

  encrypt-kept : (m : GoMap V) (w : W) → content (encrypt host json s.cipher m w).1 ≡ content w
  unfolding encrypt
  encrypt-kept m w = ground (arith, random_kept s.cipher.aead.nonce_size w)

  module _ {stored : GoMap V → GoMap V} (aead : IsAead s.cipher.aead) (js : IsJson json stored)
      (full : (n : ℕ) (w : W) (b : Bytes) → (host.random n w).0 ≡ ok b → length b ≡ n)
      (apart : (a b : String)
        → a ≢ b
        → redis_token_key lib s.prefix a ≢ redis_token_key lib s.prefix b) where
    set_lem :
        (sub : String) (m : GoMap V) (w : W)
        → (set host client lib json s sub m w).0 ≡ ok tt
        → (b : Bytes) × (decrypt json s.cipher b ≡ ok (stored m))
          × (content (set host client lib json s sub m w).1
              ≡ put_key (content w) (redis_token_key lib s.prefix sub) (some b))
    unfolding set
    set_lem sub m w e = elim (Result-cases (encrypt host json s.cipher m w).0) [
      | inr (x, bad) ↦ absurd (ground arith)
      | inl (b, good) ↦
          let w' = (encrypt host json s.cipher m w).1 in
          let k = redis_token_key lib s.prefix sub in
          (
            b,
            decrypt-encrypt json s.cipher host aead js full m w b good,
            ground (arith, h.content-set k b (pos 0) w', encrypt-kept m w),
          )
    ]

    -- What `Get` sees after one key was written.
    seen :
        (sub other : String) (c : Option Bytes) (w w' : W)
        → content w' ≡ put_key (content w) (redis_token_key lib s.prefix sub) c
        → (sub ≡ other → (get host client lib json s other w').0 ≡ opened c)
          × (sub ≢ other
              → (get host client lib json s other w').0 ≡ (get host client lib json s other w).0)
    seen sub other c w w' e =
        let k = redis_token_key lib s.prefix sub in
        let j = redis_token_key lib s.prefix other in
        let at = ap (λ (x : Content). x j) e in
        (
          λ same.
              ground
                (arith, get_lem other w', at, eq_iff k j, ap (redis_token_key lib s.prefix) same),
          λ ne.
              ground (arith, get_lem other w', get_lem other w, at, eq_iff k j, apart sub other ne),
        )

    -- `RedisTokenStore` is a map from subjects to values, where different subjects have different
    -- keys, and the server, the cipher, the random source and JSON keep their contracts. It may
    -- fail to write, and a value comes back in the form that JSON gives.
    pub redis_token_store-IsTokenStore :
        IsTokenStore (redis_token_store host client lib json s) stored
    unfolding delete
    redis_token_store-IsTokenStore = record {
      get-set_self = λ sub m w e.
          let (b, back, put) = set_lem sub m w e in
          (seen sub sub (some b) w _ put).0 refl ∙ ground (arith, back);
      get-set_ne = λ sub other m w ne e.
          let (b, back, put) = set_lem sub m w e in (seen sub other (some b) w _ put).1 ne;
      get-delete_self = λ sub w e.
          (seen sub sub none w _ (h.content-del (redis_token_key lib s.prefix sub) w e)).0 refl;
      get-delete_ne = λ sub other w ne e.
          (seen sub other none w _ (h.content-del (redis_token_key lib s.prefix sub) w e)).1 ne;
    }
