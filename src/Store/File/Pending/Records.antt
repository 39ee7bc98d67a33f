-- ===== src/Store/File/Pending/Records.antt =====
-- What `readRecord` and `writeRecord` of store/file.go make of a file.
use mcp_authkit_go.Base.{
  ℕ, Bool, false, String, Option, none, some, [], ◌∷◌, ◌≡◌, ◌≢◌, ap, ◌∙◌, sym, arith, inl, inr,
}
use mcp_authkit_go.Base.{Bool-cases, Option-cases, if◌then◌else◌}
use mcp_authkit_go.Base.Int.{ℤ, pos, ◌+ℤ◌, ltb_ℤ}
use mcp_authkit_go.Base.Action.{Result, ok, err, Result-cases}
use mcp_authkit_go.Host.{Bytes, Host, Library, Json, Files, IsHost, IsAead, IsJson}
use mcp_authkit_go.Value.{KeepsPlain, GoMap, Value, str, string_at-kept}
use mcp_authkit_go.Store.Encryption.{encrypt, decrypt}
use mcp_authkit_go.Store.Encryption.Laws.{decrypt-encrypt}
use mcp_authkit_go.Store.Memory.{duration_seconds}
use mcp_authkit_go.Store.File.{
  FilePendingStore, FilePendingRecord, unix, meta_path, atomic_write_file,
}
use mcp_authkit_go.Store.File.Atomic.{atomic_write_file-Writes}
use mcp_authkit_go.Store.File.Pending.{RecordJson, text_of, write_record, read_record, get, pop}
use mcp_authkit_go.Store.File.Pending.Clock.{Stands, atomic_write_file-clock, encrypt-clock}

-- What JSON keeps of a pending record: its expiry, and `kept` of its metadata.
pub record IsRecordJson {V : Type 0} (j : RecordJson V) (kept : GoMap V → GoMap V) : Type 0 where
  pub unmarshal-marshal :
      (r : FilePendingRecord V) (text : String)
      → j.marshal r ≡ ok text
      → j.unmarshal text ≡ ok (record r { metadata = kept r.metadata })

module _ {W N : Type 0} (host : Host W) (lib : Library) (json : Json (GoMap (Value N)))
    (records : RecordJson (Value N)) (s : FilePendingStore) where
  -- What a record file is worth at a time: nothing if it cannot be read, or has expired.
  abbrev pub decoded : ℕ → Option Bytes → Option (FilePendingRecord (Value N))
  decoded now none = none
  decoded now (some b) = elim (decrypt json s.cipher b) [
    | err _ ↦ none
    | ok v ↦ elim (records.unmarshal (text_of host lib json records s v)) [
      | err _ ↦ none
      | ok entry ↦ if ltb_ℤ entry.expires (unix (pos now)) then none else some entry
    ]
  ]

  module _ {files : W → Files} {is_temp : String → Bool} (h : IsHost host files is_temp)
      {clock : W → ℕ} (stands : Stands host clock) where
    abbrev reading : String → W → Result (Option (FilePendingRecord (Value N))) × W
    reading = read_record host lib json records s

    -- `readRecord` returns what the file is worth.
    pub read_record_lem :
        (p : String) (w : W) → (reading p w).0 ≡ ok (decoded (clock w) (files w p))
    unfolding read_record
    read_record_lem p w =
        let w1 = (host.read_file p w).1 in
        let seen = h.read_lem p w in
        let time : (host.now w1).0 ≡ pos (clock w) =
          stands.now_lem w1 ∙ ap pos (stands.clock-read p w) in
        elim (Option-cases (files w p)) [
          | inl absent ↦ ground (arith, seen, absent)
          | inr (b, there) ↦ elim (Result-cases (decrypt json s.cipher b)) [
            | inr (e, bad) ↦ ground (arith, seen, there)
            | inl (v, good) ↦
                elim (Result-cases (records.unmarshal (text_of host lib json records s v))) [
                  | inr (e, bad) ↦ ground (arith, seen, there)
                  | inl (entry, is) ↦
                      elim (Bool-cases (ltb_ℤ entry.expires (unix (pos (clock w))))) [
                        | inl late ↦ ground (arith, seen, there, time)
                        | inr early ↦ ground (arith, seen, there, time)
                      ]
                ]
          ]
        ]

    -- Other files are left alone, and the clock stands.
    pub read_record-kept :
        (p q : String) (w : W)
        → (p ≢ q → files (reading p w).1 q ≡ files w q) × (clock (reading p w).1 ≡ clock w)
    unfolding read_record
    read_record-kept p q w =
        let w1 = (host.read_file p w).1 in
        let w2 = (host.now w1).1 in
        let read = ap (λ (f : Files). f q) (h.files-read p w) in
        let now = ap (λ (f : Files). f q) (h.files-now w1) in
        (
          λ ne. ground (arith, read, now, h.files-remove_ne p q w1 ne, h.files-remove_ne p q w2 ne),
          ground (
            arith,
            stands.clock-read p w,
            stands.clock-now w1,
            stands.clock-remove p w1,
            stands.clock-remove p w2,
          ),
        )

    abbrev pub given : Option (FilePendingRecord (Value N)) → GoMap (Value N)
    given none = none
    given (some r) = r.metadata

    -- What a `Pop` of the key hands out now.
    abbrev pub entry : W → String → GoMap (Value N)
    entry w k = given (decoded (clock w) (files w (meta_path lib s k)))

    -- `Get` and `Pop` return it.
    pub pop_entry : (k : String) (w : W) → (pop host lib json records s k w).0 ≡ ok (entry w k)
    unfolding pop
    pop_entry k w =
        let path = meta_path lib s k in
        let read = read_record_lem path w in
        elim (Option-cases (decoded (clock w) (files w path))) [
          | inl nothing ↦ ground (arith, read, nothing)
          | inr (r, some_r) ↦ ground (arith, read, some_r)
        ]

    pub get_entry : (k : String) (w : W) → (get host lib json records s k w).0 ≡ ok (entry w k)
    unfolding get
    get_entry k w =
        let path = meta_path lib s k in
        let read = read_record_lem path w in
        elim (Option-cases (decoded (clock w) (files w path))) [
          | inl nothing ↦ ground (arith, read, nothing)
          | inr (r, some_r) ↦ ground (arith, read, some_r)
        ]

    -- the record that `writeRecord` makes
    abbrev pub made_record : GoMap (Value N) → ℤ → ℕ → FilePendingRecord (Value N)
    made_record m ttl now = record {
      metadata = m;
      expires = unix (pos now +ℤ duration_seconds ttl);
    }

    abbrev writing : String → GoMap (Value N) → ℤ → W → Result (Unit {0}) × W
    writing = write_record host lib json records s

    pub write_record-clock :
        (p : String) (m : GoMap (Value N)) (ttl : ℤ) (w : W) → clock (writing p m ttl w).1 ≡ clock w
    unfolding write_record
    write_record-clock p m ttl w =
        let w1 = (host.now w).1 in
        elim (Result-cases (records.marshal (made_record m ttl (clock w)))) [
          | inr (e, bad) ↦ ground (arith, stands.now_lem w, stands.clock-now w)
          | inl (raw, text) ↦
              let value = some (("record", str raw) ∷ []) in
              let w2 = (encrypt host json s.cipher value w1).1 in
              elim (Result-cases (encrypt host json s.cipher value w1).0) [
                | inr (e, bad) ↦ ground (
                  arith,
                  stands.now_lem w,
                  stands.clock-now w,
                  encrypt-clock host json s.cipher stands value w1,
                )
                | inl (b, good) ↦ ground (
                  arith,
                  stands.now_lem w,
                  stands.clock-now w,
                  encrypt-clock host json s.cipher stands value w1,
                  atomic_write_file-clock host lib stands p b w2,
                )
              ]
        ]

    module _ {stored kept : GoMap (Value N) → GoMap (Value N)} (aead : IsAead s.cipher.aead)
        (js : IsJson json stored) (fields_stored : KeepsPlain stored)
        (rs : IsRecordJson records kept) where
      -- The text of a record comes back.
      text_back :
          (raw : String)
          → text_of host lib json records s (stored (some (("record", str raw) ∷ []))) ≡ raw
      text_back raw =
          let (d, is, plain, free) = fields_stored (("record", str raw) ∷ []) in
          let own = string_at-kept stored "record" raw d fields_stored is in ground (arith, is, own)

      -- On success the file is worth the record with what is kept of its metadata, until it
      -- expires.
      pub write_record_lem :
          (p : String) (m : GoMap (Value N)) (ttl : ℤ) (w : W)
          → is_temp p ≡ false
          → (writing p m ttl w).0 ≡ ok tt
          → (now : ℕ)
          → decoded now (files (writing p m ttl w).1 p) ≡ (
              let r = made_record m ttl (clock w) in
              if ltb_ℤ r.expires (unix (pos now))
              then none
              else some (record r { metadata = kept m }))
      unfolding write_record
      write_record_lem p m ttl w plain e now =
          let w1 = (host.now w).1 in
          let r = made_record m ttl (clock w) in
          elim (Result-cases (records.marshal r)) [
            | inr (x, bad) ↦ absurd (ground (arith, stands.now_lem w))
            | inl (raw, text) ↦
                let value = some (("record", str raw) ∷ []) in
                let w2 = (encrypt host json s.cipher value w1).1 in
                elim (Result-cases (encrypt host json s.cipher value w1).0) [
                  | inr (x, bad) ↦ absurd (ground (arith, stands.now_lem w))
                  | inl (b, good) ↦
                      let back =
                        decrypt-encrypt json s.cipher host aead js h.length-random value w1 b
                          good in
                      let at : writing p m ttl w ≡ atomic_write_file host lib p b w2 =
                        ground (arith, stands.now_lem w) in
                      let there : files (writing p m ttl w).1 p ≡ some b =
                        ap (λ (x : Result (Unit {0}) × W). files x.1 p) at
                        ∙ (atomic_write_file-Writes host lib h p plain b w2).0
                            (sym (ap (λ (x : Result (Unit {0}) × W). x.0) at) ∙ e) in
                      let read = rs.unmarshal-marshal r raw text in
                      ground (arith, there, back, text_back raw, read)
                ]
          ]
