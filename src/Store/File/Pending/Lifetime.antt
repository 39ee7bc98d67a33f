-- ===== src/Store/File/Pending/Lifetime.antt =====
-- How long an entry of `FilePendingStore` in store/file.go lives: its expiry is kept in whole
-- seconds.
use mcp_authkit_go.Base.{
  ℕ, ◌+◌, ◌*◌, ◌^◌, ◌<◌, ◌≤◌, Bool, true, false, String, none, ◌≡◌, ap, ◌∙◌, arith,
}
use mcp_authkit_go.Base.Int.{pos, ◌+ℤ◌, ltb_ℤ, pos-+ℤ}
use mcp_authkit_go.Base.Action.{ok}
use mcp_authkit_go.Host.{Host, Library, Json, Files, IsHost, IsAead, IsJson}
use mcp_authkit_go.Value.{KeepsPlain, GoMap, Value}
use mcp_authkit_go.Store.Memory.{duration_seconds}
use mcp_authkit_go.Store.Memory.Lifetime.{duration_seconds-exact}
use mcp_authkit_go.Store.File.{FilePendingStore, unix, meta_path}
use mcp_authkit_go.Store.File.Pending.{RecordJson, create, get, pop}
use mcp_authkit_go.Store.File.Pending.Clock.{Stands}
use mcp_authkit_go.Store.File.Pending.Records.{IsRecordJson, write_record_lem}
use mcp_authkit_go.Store.File.Pending.Records.{get_entry, pop_entry}

-- A record of a time to live of n seconds has expired when the second of its end is over.
pub in_time :
    (t n now : ℕ)
    → n * 1_000_000_000 < 2 ^ 63
    → now ≤ t + n * 1_000_000_000
    → ltb_ℤ (unix (pos t +ℤ duration_seconds (pos n))) (unix (pos now)) ≡ false
in_time t n now fits early =
    let exact =
      ap (λ d. unix (pos t +ℤ d)) (duration_seconds-exact n fits)
      ∙ ap unix (pos-+ℤ t (n * 1_000_000_000)) in
    rw exact (ground arith)

too_late :
    (t n now : ℕ)
    → n * 1_000_000_000 < 2 ^ 63
    → t + (n + 1) * 1_000_000_000 ≤ now
    → ltb_ℤ (unix (pos t +ℤ duration_seconds (pos n))) (unix (pos now)) ≡ true
too_late t n now fits late =
    let exact =
      ap (λ d. unix (pos t +ℤ d)) (duration_seconds-exact n fits)
      ∙ ap unix (pos-+ℤ t (n * 1_000_000_000)) in
    rw exact (ground arith)

module _ {W N : Type 0} (host : Host W) (lib : Library) (json : Json (GoMap (Value N)))
    (records : RecordJson (Value N)) (s : FilePendingStore) where
  module _ {files : W → Files} {is_temp : String → Bool} (h : IsHost host files is_temp)
      {clock : W → ℕ} (stands : Stands host clock) where
    module _ {stored kept : GoMap (Value N) → GoMap (Value N)} (aead : IsAead s.cipher.aead)
        (js : IsJson json stored) (fields_stored : KeepsPlain stored)
        (rs : IsRecordJson records kept) where
      -- An entry that was created with a time to live of n seconds, at time t in nanoseconds, with
      -- n·10⁹ below 2⁶³, and whose file nobody has touched: `Get` and `Pop` return it up to and at
      -- t + n·10⁹, as what JSON keeps of it, and nil from t + (n + 1)·10⁹ on. In the second between
      -- they may do either. The file system, the cipher and the random source keep their contracts,
      -- JSON brings the texts, booleans, floats and null values of a map back and adds no key, and
      -- brings a record back with its expiry, the clock stands while a call runs, and the path is
      -- not a temporary file's.
      pub file_create-lifetime :
          (k : String) (m : GoMap (Value N)) (n : ℕ) (w w' : W)
          → is_temp (meta_path lib s k) ≡ false
          → n * 1_000_000_000 < 2 ^ 63
          → (create host lib json records s k m (pos n) w).0 ≡ ok tt
          → files w' (meta_path lib s k)
            ≡ files (create host lib json records s k m (pos n) w).1 (meta_path lib s k)
          → (clock w' ≤ clock w + n * 1_000_000_000
              → ((get host lib json records s k w').0 ≡ ok (kept m))
                × ((pop host lib json records s k w').0 ≡ ok (kept m)))
            × (clock w + (n + 1) * 1_000_000_000 ≤ clock w'
                → ((get host lib json records s k w').0 ≡ ok none)
                  × ((pop host lib json records s k w').0 ≡ ok none))
      unfolding create
      file_create-lifetime k m n w w' plain fits e same =
          let path = meta_path lib s k in
          let got = get_entry host lib json records s h stands k w' in
          let popped = pop_entry host lib json records s h stands k w' in
          let written =
            write_record_lem host lib json records s h stands aead js fields_stored rs path m
              (pos n) w plain e (clock w') in
          (
            λ early.
                let live = in_time (clock w) n (clock w') fits early in
                (
                  ground (arith, got, same, written, live),
                  ground (arith, popped, same, written, live),
                ),
            λ late.
                let over = too_late (clock w) n (clock w') fits late in
                (
                  ground (arith, got, same, written, over),
                  ground (arith, popped, same, written, over),
                ),
          )
