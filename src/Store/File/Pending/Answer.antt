-- ===== src/Store/File/Pending/Answer.antt =====
-- A result that one process sets with `SetResult` of store/file.go, and the wait of another for it.
use mcp_authkit_go.Base.{
  ℕ, suc, ◌+◌, ◌*◌, ◌^◌, ◌<◌, ◌≤◌, Bool, false, String, Option, some, none, ◌≡◌, ◌≢◌, ap, ◌∙◌,
  arith,
}
use mcp_authkit_go.Base.Int.{ℤ, pos, ◌+ℤ◌}
use mcp_authkit_go.Base.Action.{Action, Error, Result, ok}
use mcp_authkit_go.Host.{Host, Library, Json, Files, Removal, IsHost, IsAead, IsJson}
use mcp_authkit_go.Value.{KeepsPlain, GoMap, Value}
use mcp_authkit_go.Store.File.{FilePendingStore, FilePendingRecord, done_path}
use mcp_authkit_go.Store.File.Pending.{
  RecordJson, Pause, read_record, poll, set_result, wait_for_result,
}
use mcp_authkit_go.Store.File.Pending.Clock.{Stands}
use mcp_authkit_go.Store.File.Pending.Records.{
  IsRecordJson, decoded, made_record, read_record_lem, write_record_lem,
}
use mcp_authkit_go.Store.File.Pending.Lifetime.{in_time}
use mcp_authkit_go.Store.File.Pending.Pop.{remove-none}

module _ {W N : Type 0} (host : Host W) (lib : Library) (json : Json (GoMap (Value N)))
    (records : RecordJson (Value N)) (s : FilePendingStore) {files : W → Files}
    {is_temp : String → Bool} (h : IsHost host files is_temp) {clock : W → ℕ}
    (stands : Stands host clock)
    (removes : (p : String) (w : W) (e : Error) → (host.remove p w).0 ≢ Removal.failed e) where
  -- A round of a wait takes a record that can be read.
  poll-some :
      (fuel : ℕ) (pause : ℤ → Action W Pause) (path : String) (deadline : ℤ) (w : W)
      (r : FilePendingRecord (Value N))
      → decoded host lib json records s (clock w) (files w path) ≡ some r
      → ((poll host lib json records s (suc fuel) pause path deadline w).0 ≡ some (ok r.metadata))
        × (files (poll host lib json records s (suc fuel) pause path deadline w).1 path ≡ none)
  unfolding poll
  poll-some fuel pause path deadline w r there =
      let w1 = (read_record host lib json records s path w).1 in
      let read = read_record_lem host lib json records s h stands path w in
      let at : poll host lib json records s (suc fuel) pause path deadline w
          ≡ (some (ok r.metadata), (host.remove path w1).1) =
        ground (arith, read, there) in
      (
        ap (λ (x : Option (Result (GoMap (Value N))) × W). x.0) at,
        ap (λ (x : Option (Result (GoMap (Value N))) × W). files x.1 path) at
            ∙ remove-none host lib json records s h removes path w1,
      )

  module _ {stored kept : GoMap (Value N) → GoMap (Value N)} (aead : IsAead s.cipher.aead)
      (js : IsJson json stored) (fields_stored : KeepsPlain stored)
      (rs : IsRecordJson records kept) where
    -- A result that was set for n seconds, with n·10⁹ below 2⁶³, and whose file is still there in a
    -- world at most that much later, is what a wait for its key returns in its first round, as what
    -- JSON keeps of it, without a pause; the wait leaves no file behind. The file system, the
    -- cipher and the random source keep their contracts, JSON brings the texts, booleans, floats
    -- and null values of a map back and adds no key, and brings a record back with its expiry, the
    -- system does not refuse to remove a file, the clock stands while a call runs, and the path is
    -- not a temporary file's.
    pub file_set_result-wait_for_result :
        (k : String) (m : GoMap (Value N)) (n : ℕ) (w w' : W)
        → is_temp (done_path lib s k) ≡ false
        → n * 1_000_000_000 < 2 ^ 63
        → (set_result host lib json records s k m (pos n) w).0 ≡ ok tt
        → files w' (done_path lib s k)
          ≡ files (set_result host lib json records s k m (pos n) w).1 (done_path lib s k)
        → clock w' ≤ clock w + n * 1_000_000_000
        → (fuel : ℕ) (pause : ℤ → Action W Pause) (timeout : ℤ)
        → ((wait_for_result host lib json records s (suc fuel) pause k timeout w').0
            ≡ some (ok (kept m)))
          × (files
                (wait_for_result host lib json records s (suc fuel) pause k timeout w').1
                (done_path lib s k)
              ≡ none)
    unfolding set_result wait_for_result
    file_set_result-wait_for_result k m n w w' plain fits e same early fuel pause timeout =
        let path = done_path lib s k in
        let w1 = (host.now w').1 in
        let written =
          write_record_lem host lib json records s h stands aead js fields_stored rs path m (pos n)
            w plain e (clock w') in
        let live = in_time (clock w) n (clock w') fits early in
        let found = record (made_record host lib json records s h stands m (pos n) (clock w)) {
          metadata = kept m;
        } in
        let seen = ap (λ (f : Files). f path) (h.files-now w') in
        poll-some fuel pause path ((host.now w').0 +ℤ timeout) w1 found
          (ground (arith, stands.clock-now w', seen, same, written, live))
