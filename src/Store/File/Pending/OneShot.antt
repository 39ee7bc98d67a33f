-- ===== src/Store/File/Pending/OneShot.antt =====
-- `FilePendingStore` of store/file.go hands an entry out once, for one process.
use mcp_authkit_go.Base.{
  Bool, false, String, none, some, [], ◌∷◌, ◌≡◌, ◌≢◌, ap, ◌∙◌, arith, inl, inr,
}
use mcp_authkit_go.Base.Int.{ℤ, ◌+ℤ◌}
use mcp_authkit_go.Base.Action.{Action, Error, Result, Result-cases}
use mcp_authkit_go.Host.{Host, Library, Json, Files, Removal, IsHost}
use mcp_authkit_go.Value.{GoMap, Value, str}
use mcp_authkit_go.Store.{IsOneShot}
use mcp_authkit_go.Store.Encryption.{encrypt}
use mcp_authkit_go.Store.Memory.{duration_seconds}
use mcp_authkit_go.Store.File.{FilePendingStore, FilePendingRecord, unix, meta_path, done_path}
use mcp_authkit_go.Store.File.Atomic.{atomic_write_file-Writes}
use mcp_authkit_go.Store.File.Pending.{
  RecordJson, write_record, read_record, pop, set_result, file_pending_store,
}
use mcp_authkit_go.Store.File.Pending.Pop.{file_pop_once}

module _ {W N M : Type 0} (host : Host W) (lib : Library) (json : Json (GoMap (Value N)))
    (records : RecordJson (Value N)) (s : FilePendingStore)
    (wait : String → M → Action W (Result (GoMap (Value N)))) {files : W → Files}
    {is_temp : String → Bool} (h : IsHost host files is_temp) where
  encrypt-kept :
      (m : GoMap (Value N)) (q : String) (w : W)
      → files (encrypt host json s.cipher m w).1 q ≡ files w q
  unfolding encrypt
  encrypt-kept m q w =
      ground (arith, ap (λ (x : Files). x q) (h.files-random s.cipher.aead.nonce_size w))

  -- A write of a record leaves the other files alone, but for those of temporary files.
  pub write_record-kept :
      (path q : String) (m : GoMap (Value N)) (ttl : ℤ) (w : W)
      → is_temp path ≡ false
      → is_temp q ≡ false
      → q ≢ path
      → files (write_record host lib json records s path m ttl w).1 q ≡ files w q
  unfolding write_record
  write_record-kept path q m ttl w plain f ne =
      let entry : FilePendingRecord (Value N) = record {
        metadata = m;
        expires = unix ((host.now w).0 +ℤ duration_seconds ttl);
      } in
      let w1 = (host.now w).1 in
      let later = ap (λ (x : Files). x q) (h.files-now w) in
      elim (Result-cases (records.marshal entry)) [
        | inr (e, bad) ↦ ground (arith, later)
        | inl (raw, text) ↦
            let value = some (("record", str raw) ∷ []) in
            let w2 = (encrypt host json s.cipher value w1).1 in
            let sealed = encrypt-kept value q w1 in
            elim (Result-cases (encrypt host json s.cipher value w1).0) [
              | inr (e, bad) ↦ ground (arith, later, sealed)
              | inl (b, good) ↦
                  let written = (atomic_write_file-Writes host lib h path plain b w2).2 q f ne in
                  ground (arith, later, sealed, written)
            ]
      ]

  abbrev pub IsGone : String → W → Type 0
  IsGone k w = files w (meta_path lib s k) ≡ none

  -- `FilePendingStore` hands an entry out once, where the system does not refuse to remove a file,
  -- and the paths of entries differ from those of results and of temporary files: after a pop that
  -- returned without an error there is no file, where there is none a pop returns nil, and results
  -- bring none back.
  pub file_pending_store-IsOneShot :
      ((p : String) (w : W) (e : Error) → (host.remove p w).0 ≢ Removal.failed e)
      → ((k : String) → is_temp (meta_path lib s k) ≡ false)
      → ((k : String) → is_temp (done_path lib s k) ≡ false)
      → ((k j : String) → meta_path lib s k ≢ done_path lib s j)
      → IsOneShot (file_pending_store host lib json records s wait) IsGone
  unfolding pop read_record set_result
  file_pending_store-IsOneShot removes meta done apart = record {
    gone-pop = λ k m w e. (file_pop_once host lib json records s h removes k w m e).0;
    pop-gone = λ k w g. ground (arith, h.read_lem (meta_path lib s k) w, g);
    gone-set_result = λ k j m ttl w g.
        write_record-kept (done_path lib s j) (meta_path lib s k) m ttl w (done j) (meta k)
          (apart k j)
        ∙ g;
  }
