-- ===== src/Store.antt =====
-- store/store.go: the interfaces `TokenStore` and `PendingStore`, over a world `W` that an
-- operation may change, and what a client relies on.
pub mod Memory
pub mod Encryption
pub mod File
pub mod Redis
pub mod Factory
pub mod Trace
pub mod Subject
use mcp_authkit_go.Base.{
  String, Option, none, ◌≡◌, ◌≢◌, ap, ◌∙◌, arith, eq_iff, ◌==◌, if◌then◌else◌,
}
use mcp_authkit_go.Base.Int.{ℤ}
use mcp_authkit_go.Base.Action.{Action, Result, ok}
use mcp_authkit_go.Value.{GoMap}

pub record TokenStore (W V : Type 0) : Type 0 where
  pub get : String → Action W (Result (GoMap V))
  pub set : String → GoMap V → Action W (Result (Unit {0}))
  pub delete : String → Action W (Result (Unit {0}))

-- `N` is float64, the type of a wait's timeout in seconds.
pub record PendingStore (W N V : Type 0) : Type 0 where
  pub create : String → GoMap V → ℤ → Action W (Result (Unit {0}))
  pub get : String → Action W (Result (GoMap V))
  pub pop : String → Action W (Result (GoMap V))
  pub set_result : String → GoMap V → ℤ → Action W (Result (Unit {0}))
  pub wait_for_result : String → N → Action W (Result (GoMap V))

-- The store behaves as a map from subjects to values. `stored` is the form in which a value comes
-- back, such as a copy, or what JSON keeps of it.
pub record IsTokenStore {W V : Type 0} (T : TokenStore W V) (stored : GoMap V → GoMap V)
    : Type 0 where
  pub get-set_self :
      (sub : String) (m : GoMap V) (w : W)
      → (T.set sub m w).0 ≡ ok tt
      → (T.get sub (T.set sub m w).1).0 ≡ ok (stored m)
  pub get-set_ne :
      (sub other : String) (m : GoMap V) (w : W)
      → sub ≢ other
      → (T.set sub m w).0 ≡ ok tt
      → (T.get other (T.set sub m w).1).0 ≡ (T.get other w).0
  pub get-delete_self :
      (sub : String) (w : W)
      → (T.delete sub w).0 ≡ ok tt
      → (T.get sub (T.delete sub w).1).0 ≡ ok none
  pub get-delete_ne :
      (sub other : String) (w : W)
      → sub ≢ other
      → (T.delete sub w).0 ≡ ok tt
      → (T.get other (T.delete sub w).1).0 ≡ (T.get other w).0

-- `Pop` hands an entry out once: `gone k w` says that the key holds nothing in the world `w`.
pub record IsOneShot {W N V : Type 0} (P : PendingStore W N V) (gone : String → W → Type 0)
    : Type 0 where
  pub gone-pop : (k : String) (m : GoMap V) (w : W) → (P.pop k w).0 ≡ ok m → gone k (P.pop k w).1
  pub pop-gone : (k : String) (w : W) → gone k w → (P.pop k w).0 ≡ ok none
  pub gone-set_result :
      (k j : String) (m : GoMap V) (ttl : ℤ) (w : W) → gone k w → gone k (P.set_result j m ttl w).1

-- The store behaves as a map from keys to entries, as far as its live entries go: `entry w k` is
-- what a `Pop` of the key would hand out. An entry is live when `Create` returns if its time to
-- live is one that `Lasts`. `SetResult` does not touch the entries. `stored` is the form in which a
-- value comes back.
pub record IsPendingStore {W N V : Type 0} (P : PendingStore W N V) (Lasts : ℤ → Type 0)
    (stored : GoMap V → GoMap V) (entry : W → String → GoMap V) : Type 0 where
  pub pop_lem : (k : String) (w : W) → (P.pop k w).0 ≡ ok (entry w k)
  pub entry-pop :
      (k j : String) (w : W) → entry (P.pop k w).1 j ≡ (if k == j then none else entry w j)
  pub entry-create_self :
      (k : String) (m : GoMap V) (ttl : ℤ) (w : W)
      → Lasts ttl
      → (P.create k m ttl w).0 ≡ ok tt
      → entry (P.create k m ttl w).1 k ≡ stored m
  pub entry-create_ne :
      (k j : String) (m : GoMap V) (ttl : ℤ) (w : W)
      → k ≢ j
      → (P.create k m ttl w).0 ≡ ok tt
      → entry (P.create k m ttl w).1 j ≡ entry w j
  pub entry-set_result :
      (k j : String) (m : GoMap V) (ttl : ℤ) (w : W)
      → entry (P.set_result k m ttl w).1 j ≡ entry w j

pub IsPendingStore-IsOneShot :
    {W N V : Type 0} {P : PendingStore W N V} {Lasts : ℤ → Type 0} {stored : GoMap V → GoMap V}
    {entry : W → String → GoMap V}
    → IsPendingStore P Lasts stored entry
    → IsOneShot P (λ k w. entry w k ≡ none)
IsPendingStore-IsOneShot h = record {
  gone-pop = λ k m w e. ground (arith, h.entry-pop k k w, eq_iff k k);
  pop-gone = λ k w g. h.pop_lem k w ∙ ap ok g;
  gone-set_result = λ k j m ttl w g. h.entry-set_result j k m ttl w ∙ g;
}
