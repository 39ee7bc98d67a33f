-- ===== src/Store/File/Pending/Entries.antt =====
-- `FilePendingStore` of store/file.go keeps the contract of a pending store, for one process and on
-- a clock that stands while a call runs.
use mcp_authkit_go.Base.{
  ℕ, ◌*◌, Bool, false, String, none, ◌≡◌, ◌≢◌, ap, ◌∙◌, sym, arith, eq_iff, inl, inr,
}
use mcp_authkit_go.Base.{◌==◌, Bool-cases, if◌then◌else◌}
use mcp_authkit_go.Base.Int.{ℤ, pos, negsuc, ◌+ℤ◌, ltb_ℤ, pos-+ℤ}
use mcp_authkit_go.Base.Action.{Action, Error, Result, ok}
use mcp_authkit_go.Host.{Host, Library, Json, Files, Removal, IsHost, IsAead, IsJson}
use mcp_authkit_go.Value.{KeepsPlain, GoMap, Value}
use mcp_authkit_go.Store.{IsPendingStore}
use mcp_authkit_go.Store.Memory.{duration_seconds}
use mcp_authkit_go.Store.Memory.Lifetime.{duration_seconds-exact}
use mcp_authkit_go.Store.Memory.Entries.{Lasts}
use mcp_authkit_go.Store.File.{FilePendingStore, unix, meta_path, done_path}
use mcp_authkit_go.Store.File.Pending.{
  RecordJson, read_record, create, pop, set_result, file_pending_store,
}
use mcp_authkit_go.Store.File.Pending.Clock.{Stands}
use mcp_authkit_go.Store.File.Pending.Records.{
  IsRecordJson, read_record_lem, entry, pop_entry, read_record-kept, write_record-clock,
  write_record_lem,
}
use mcp_authkit_go.Store.File.Pending.Pop.{remove-none}
use mcp_authkit_go.Store.File.Pending.OneShot.{write_record-kept}

-- The second in which a record expires is not before the one in which it was made.
alive :
    (t : ℕ) (ttl : ℤ)
    → Lasts ttl
    → ltb_ℤ (unix (pos t +ℤ duration_seconds ttl)) (unix (pos t)) ≡ false
alive t (pos n) fits =
    let exact =
      ap (λ d. unix (pos t +ℤ d)) (duration_seconds-exact n fits)
      ∙ ap unix (pos-+ℤ t (n * 1_000_000_000)) in
    rw exact (ground arith)
alive t (negsuc n) fits = elim fits [ ]

module _ {W N : Type 0} (host : Host W) (lib : Library) (json : Json (GoMap (Value N)))
    (records : RecordJson (Value N)) (s : FilePendingStore) where
  module _ {files : W → Files} {is_temp : String → Bool} (h : IsHost host files is_temp)
      {clock : W → ℕ} (stands : Stands host clock) where
    module _ {stored kept : GoMap (Value N) → GoMap (Value N)} (aead : IsAead s.cipher.aead)
        (js : IsJson json stored) (fields_stored : KeepsPlain stored)
        (rs : IsRecordJson records kept) where
      module _ {M : Type 0} (wait : String → M → Action W (Result (GoMap (Value N))))
          (removes : (p : String) (w : W) (e : Error) → (host.remove p w).0 ≢ Removal.failed e)
          (meta_plain : (k : String) → is_temp (meta_path lib s k) ≡ false)
          (done_plain : (k : String) → is_temp (done_path lib s k) ≡ false)
          (meta_done : (k j : String) → meta_path lib s k ≢ done_path lib s j)
          (apart : (a b : String) → a ≢ b → meta_path lib s a ≢ meta_path lib s b) where
        taken :
            (k j : String) (w : W)
            → entry host lib json records s h stands (pop host lib json records s k w).1 j
              ≡ (if k == j then none else entry host lib json records s h stands w j)
        unfolding pop
        taken k j w =
            let path = meta_path lib s k in
            let other = meta_path lib s j in
            let w1 = (read_record host lib json records s path w).1 in
            let at : (pop host lib json records s k w).1 ≡ (host.remove path w1).1 =
              ground (arith, read_record_lem host lib json records s h stands path w) in
            let (kept_by, clock_kept) =
              read_record-kept host lib json records s h stands path other w in
            let still : clock (pop host lib json records s k w).1 ≡ clock w =
              ap clock at ∙ stands.clock-remove path w1 ∙ clock_kept in
            elim (Bool-cases (k == j)) [
              | inl same ↦
                  let gone : files (pop host lib json records s k w).1 path ≡ none =
                    ap (λ x. files x path) at
                    ∙ remove-none host lib json records s h removes path w1 in
                  let one = ap (meta_path lib s) ((eq_iff k j).0 same) in
                  ground (arith, gone, same, one)
              | inr differ ↦
                  let ne : path ≢ other = apart k j (λ x. ground (arith, eq_iff k j)) in
                  let left : files (pop host lib json records s k w).1 other ≡ files w other =
                    ap (λ x. files x other) at ∙ h.files-remove_ne path other w1 ne ∙ kept_by ne in
                  ground (arith, left, still, differ)
            ]

        created_ne :
            (k j : String) (m : GoMap (Value N)) (ttl : ℤ) (w : W)
            → k ≢ j
            → entry host lib json records s h stands (create host lib json records s k m ttl w).1 j
              ≡ entry host lib json records s h stands w j
        unfolding create
        created_ne k j m ttl w ne =
            let path = meta_path lib s k in
            let other = meta_path lib s j in
            let left =
              write_record-kept host lib json records s wait h path other m ttl w (meta_plain k)
                (meta_plain j) (λ x. apart k j ne (sym x)) in
            let still = write_record-clock host lib json records s h stands path m ttl w in
            ground (arith, left, still)

        resulted :
            (k j : String) (m : GoMap (Value N)) (ttl : ℤ) (w : W)
            → entry host lib json records s h stands
                (set_result host lib json records s k m ttl w).1
                j
              ≡ entry host lib json records s h stands w j
        unfolding set_result
        resulted k j m ttl w =
            let path = done_path lib s k in
            let other = meta_path lib s j in
            let left =
              write_record-kept host lib json records s wait h path other m ttl w (done_plain k)
                (meta_plain j) (meta_done j k) in
            let still = write_record-clock host lib json records s h stands path m ttl w in
            ground (arith, left, still)

        created_self :
            (k : String) (m : GoMap (Value N)) (ttl : ℤ) (w : W)
            → Lasts ttl
            → (create host lib json records s k m ttl w).0 ≡ ok tt
            → entry host lib json records s h stands (create host lib json records s k m ttl w).1 k
              ≡ kept m
        unfolding create
        created_self k m ttl w lasts e =
            let path = meta_path lib s k in
            let written =
              write_record_lem host lib json records s h stands aead js fields_stored rs path m ttl
                w (meta_plain k) e (clock w) in
            let still = write_record-clock host lib json records s h stands path m ttl w in
            ground (arith, written, still, alive (clock w) ttl lasts)

        -- `FilePendingStore` is a map from keys to entries, of which a `Pop` takes one off, for one
        -- process and on a clock that stands while a call runs: where the system does not refuse to
        -- remove a file, different keys have different paths, which differ from those of results
        -- and of temporary files, the file system, the cipher and the random source keep their
        -- contracts, and JSON brings the texts, booleans, floats and null values of a map back and
        -- adds no key, and brings a record back with its expiry. It may fail to write, an entry is
        -- live when it was created for times to live that are not negative and do not overflow,
        -- results do not touch the entries, and a value comes back as what JSON keeps of it.
        pub file_pending_store-IsPendingStore :
            IsPendingStore
              (file_pending_store host lib json records s wait)
              Lasts
              kept
              (entry host lib json records s h stands)
        file_pending_store-IsPendingStore = record {
          pop_lem = pop_entry host lib json records s h stands;
          entry-pop = taken;
          entry-create_self = created_self;
          entry-create_ne = λ k j m ttl w ne e. created_ne k j m ttl w ne;
          entry-set_result = resulted;
        }
