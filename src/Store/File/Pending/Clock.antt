-- ===== src/Store/File/Pending/Clock.antt =====
-- The calls of store/file.go on a clock that stands while they run.
use mcp_authkit_go.Base.{ℕ, String, ◌≡◌, arith, inl, inr}
use mcp_authkit_go.Base.Int.{pos}
use mcp_authkit_go.Base.Action.{Result-cases}
use mcp_authkit_go.Host.{Bytes, Host, Library, Json}
use mcp_authkit_go.Value.{GoMap}
use mcp_authkit_go.Store.Encryption.{Cipher, encrypt}
use mcp_authkit_go.Store.File.{atomic_write_file, fill_and_rename}

-- The clock, in nanoseconds since the epoch, which no call of the operating system moves.
pub record Stands {W : Type 0} (h : Host W) (clock : W → ℕ) : Type 0 where
  pub now_lem : (w : W) → (h.now w).0 ≡ pos (clock w)
  pub clock-now : (w : W) → clock (h.now w).1 ≡ clock w
  pub clock-random : (n : ℕ) (w : W) → clock (h.random n w).1 ≡ clock w
  pub clock-read : (p : String) (w : W) → clock (h.read_file p w).1 ≡ clock w
  pub clock-remove : (p : String) (w : W) → clock (h.remove p w).1 ≡ clock w
  pub clock-mkdir : (p : String) (w : W) → clock (h.mkdir_all p w).1 ≡ clock w
  pub clock-temp : (p : String) (w : W) → clock (h.create_temp p w).1 ≡ clock w
  pub clock-write : (p : String) (b : Bytes) (w : W) → clock (h.write p b w).1 ≡ clock w
  pub clock-close : (p : String) (w : W) → clock (h.close p w).1 ≡ clock w
  pub clock-rename : (p q : String) (w : W) → clock (h.rename p q w).1 ≡ clock w

module _ {W : Type 0} (host : Host W) (lib : Library) {clock : W → ℕ}
    (stands : Stands host clock) where
  fill_and_rename-clock :
      (temp p : String) (b : Bytes) (w : W)
      → clock (fill_and_rename host lib temp p b w).1 ≡ clock w
  unfolding fill_and_rename
  fill_and_rename-clock temp p b w =
      let w1 = (host.write temp b w).1 in
      let w2 = (host.close temp w1).1 in
      ground (
        arith,
        stands.clock-write temp b w,
        stands.clock-close temp w1,
        stands.clock-remove temp w2,
        stands.clock-rename temp p w2,
      )

  pub atomic_write_file-clock :
      (p : String) (b : Bytes) (w : W) → clock (atomic_write_file host lib p b w).1 ≡ clock w
  unfolding atomic_write_file
  atomic_write_file-clock p b w =
      let w1 = (host.mkdir_all (lib.dir p) w).1 in
      let (made, w2) = host.create_temp (lib.dir p) w1 in
      elim (Result-cases (host.create_temp (lib.dir p) w1).0) [
        | inr (e, bad) ↦
            ground (arith, stands.clock-mkdir (lib.dir p) w, stands.clock-temp (lib.dir p) w1)
        | inl (temp, good) ↦ ground (
          arith,
          stands.clock-mkdir (lib.dir p) w,
          stands.clock-temp (lib.dir p) w1,
          fill_and_rename-clock temp p b w2,
        )
      ]

module _ {W V : Type 0} (host : Host W) (json : Json (GoMap V)) (c : Cipher) {clock : W → ℕ}
    (stands : Stands host clock) where
  pub encrypt-clock : (m : GoMap V) (w : W) → clock (encrypt host json c m w).1 ≡ clock w
  unfolding encrypt
  encrypt-clock m w = ground (arith, stands.clock-random c.aead.nonce_size w)
