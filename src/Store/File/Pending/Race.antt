-- ===== src/Store/File/Pending/Race.antt =====
-- Two calls of `Pop` of store/file.go for one key at a time: a call reads the file, and then
-- removes it, with no lock between.
use mcp_authkit_go.Base.{ℕ, Bool, String, Option, none, some, ◌≡◌, ◌≢◌, refl, ap, ◌∙◌, arith}
use mcp_authkit_go.Base.{Bool-cases, Option-cases, inl, inr}
use mcp_authkit_go.Base.Int.{pos, ltb_ℤ}
use mcp_authkit_go.Store.Encryption.{decrypt}
use mcp_authkit_go.Base.Action.{Result-cases, Action, Error, Result, ok, err, pure, ◌>>=◌, ◌>>◌}
use mcp_authkit_go.Host.{Host, Library, Json, Files, Removal, IsHost}
use mcp_authkit_go.Value.{GoMap, Value}
use mcp_authkit_go.Store.File.{FilePendingStore, FilePendingRecord, meta_path, unix}
use mcp_authkit_go.Store.File.Pending.{RecordJson, text_of, read_record, metadata_of, pop}
use mcp_authkit_go.Store.File.Pending.Clock.{Stands}
use mcp_authkit_go.Store.File.Pending.Records.{decoded, read_record_lem, read_record-kept}
use mcp_authkit_go.Store.File.Pending.Pop.{file_pop_once}

module _ {W N : Type 0} (host : Host W) (lib : Library) (json : Json (GoMap (Value N)))
    (records : RecordJson (Value N)) (s : FilePendingStore) where
  -- `Pop` up to its removal, and from there on
  unfoldable pub pop_read : String → Action W (Result (Option (FilePendingRecord (Value N))))
  pop_read key = read_record host lib json records s (meta_path lib s key)

  unfoldable pub pop_remove :
      String → Result (Option (FilePendingRecord (Value N))) → Action W (Result (GoMap (Value N)))
  pop_remove key (err e) = pure (err e)
  pop_remove key (ok entry) = do
    host.remove (meta_path lib s key)
    pure (metadata_of host lib json records s (ok entry))

  -- Two calls, of which both read before either removes: the answers of both.
  unfoldable pub pop_twice : String → Action W (Result (GoMap (Value N)) × Result (GoMap (Value N)))
  unfolding pop_read pop_remove
  pop_twice key = do
    first ← pop_read key
    second ← pop_read key
    one ← pop_remove key first
    other ← pop_remove key second
    pure (one, other)

  module _ {files : W → Files} {is_temp : String → Bool} (h : IsHost host files is_temp)
      {clock : W → ℕ} (stands : Stands host clock)
      (removes : (p : String) (w : W) (e : Error) → (host.remove p w).0 ≢ Removal.failed e) where
    -- A live record stays where it is when it is read.
    read_record-live :
        (path : String) (w : W) (r : FilePendingRecord (Value N))
        → decoded host lib json records s (clock w) (files w path) ≡ some r
        → (read_record host lib json records s path w).1 ≡ (host.now (host.read_file path w).1).1
    unfolding read_record
    read_record-live path w r live =
        let seen = h.read_lem path w in
        let time : (host.now (host.read_file path w).1).0 ≡ pos (clock w) =
          stands.now_lem (host.read_file path w).1 ∙ ap pos (stands.clock-read path w) in
        elim (Option-cases (files w path)) [
          | inl absent ↦ absurd (ground arith)
          | inr (b, there) ↦ elim (Result-cases (decrypt json s.cipher b)) [
            | inr (e, bad) ↦ absurd (ground arith)
            | inl (v, good) ↦
                elim (Result-cases (records.unmarshal (text_of host lib json records s v))) [
                  | inr (e, bad) ↦ absurd (ground arith)
                  | inl (entry, is) ↦
                      elim (Bool-cases (ltb_ℤ entry.expires (unix (pos (clock w))))) [
                        | inl late ↦ absurd (ground arith)
                        | inr early ↦ ground (arith, seen, there, time)
                      ]
                ]
          ]
        ]

    -- Two calls for one key of which both read a live record before either removes its file both
    -- return it. A call that runs through is its two halves; it returns the record, and one that
    -- comes right after it returns nil. The file system keeps its contract, the system does not
    -- refuse to remove a file, and the clock stands while a call runs.
    pub pops_race :
        (key : String) (w : W) (r : FilePendingRecord (Value N))
        → decoded host lib json records s (clock w) (files w (meta_path lib s key)) ≡ some r
        → ((pop_twice key w).0 ≡ (ok r.metadata, ok r.metadata))
          × (pop host lib json records s key w
              ≡ pop_remove key (pop_read key w).0 (pop_read key w).1)
          × (let first = pop host lib json records s key w in
              (first.0 ≡ ok r.metadata) × ((pop host lib json records s key first.1).0 ≡ ok none))
    unfolding pop_twice pop_read pop_remove pop
    pops_race key w r live =
        let path = meta_path lib s key in
        let w1 = (pop_read key w).1 in
        let read = read_record_lem host lib json records s h stands path in
        let kept : files w1 path ≡ files w path =
          ap (λ x. files x path) (read_record-live path w r live)
          ∙ ap (λ (f : Files). f path) (h.files-now (host.read_file path w).1)
          ∙ ap (λ (f : Files). f path) (h.files-read path w) in
        let still = (read_record-kept host lib json records s h stands path path w).1 in
        let first : (pop host lib json records s key w).0 ≡ ok r.metadata =
          ground (arith, read w, live) in
        (
          ground (arith, read w, live, read w1, kept, still),
          refl,
          (first, (file_pop_once host lib json records s h removes key w r.metadata first).1),
        )
