-- ===== src/Store/File/Pending.antt =====
-- store/file.go: the methods of `FilePendingStore`. The wait polls; `fuel` bounds the rounds, each
-- of which sleeps for half a second, and `none` means that it ran out.
pub mod Laws
pub mod Pop
pub mod OneShot
pub mod Clock
pub mod Records
pub mod Entries
pub mod Lifetime
pub mod Answer
pub mod Race
use mcp_authkit_go.Base.{ℕ, zero, suc, String, Option, none, some, [], ◌∷◌, if◌then◌else◌}
use mcp_authkit_go.Base.Int.{ℤ, ◌+ℤ◌, ltb_ℤ}
use mcp_authkit_go.Base.Action.{Action, Error, Result, ok, err, pure, ◌>>=◌, ◌>>◌}
use mcp_authkit_go.Host.{Bytes, Host, Library, Json, Read, contents, missing, failed}
use mcp_authkit_go.Value.{Value, str, GoMap, string_at}
use mcp_authkit_go.Store.{PendingStore}
use mcp_authkit_go.Store.Encryption.{encrypt, decrypt}
use mcp_authkit_go.Store.Memory.{duration_seconds, after}
use mcp_authkit_go.Store.File.{
  FilePendingStore, FilePendingRecord, unix, file_poll_interval, atomic_write_file, meta_path,
  done_path,
}

-- encoding/json between a pending record and a text, string(raw)
pub record RecordJson (V : Type 0) : Type 0 where
  pub marshal : FilePendingRecord V → Result String
  pub unmarshal : String → Result (FilePendingRecord V)

-- What a wait for its next round brings: the interval passes, or ctx.Done() with ctx.Err().
pub data Pause : Type 0 where
  elapsed : Pause
  cancelled : Error → Pause

-- The rest of a round of a wait that found nothing; `pause` is its `select`, and `again` the next
-- round.
unfoldable pub next_round :
    {W A : Type 0}
    → Host W
    → (ℤ → Action W Pause)
    → ℤ
    → Action W (Option (Result (GoMap A)))
    → Action W (Option (Result (GoMap A)))
next_round host pause deadline again = do
  now ← host.now
  if after now deadline then pure (some (ok none)) else do
    p ← pause file_poll_interval
    elim p [ cancelled e ↦ pure (some (err e)) | elapsed ↦ again ]

module _ {W N : Type 0} (host : Host W) (lib : Library) (json : Json (GoMap (Value N)))
    (records : RecordJson (Value N)) (s : FilePendingStore) where
  unfoldable pub write_record : String → GoMap (Value N) → ℤ → Action W (Result (Unit {0}))
  write_record path metadata ttl_seconds = do
    now ← host.now
    let entry : FilePendingRecord (Value N) = record {
      metadata = metadata;
      expires = unix (now +ℤ duration_seconds ttl_seconds);
    }
    elim (records.marshal entry) [
      | err e ↦ pure (err e)
      | ok raw ↦ do
        sealed ← encrypt host json s.cipher (some (("record", str raw) ∷ []))
        elim sealed [ err e ↦ pure (err e) | ok b ↦ atomic_write_file host lib path b ]
    ]

  -- `_ = os.Remove(path); return nil, nil`
  abbrev drop_record : String → Action W (Result (Option (FilePendingRecord (Value N))))
  drop_record path = do host.remove path; pure (ok none)

  abbrev pub text_of : GoMap (Value N) → String
  text_of none = ""
  text_of (some m) = string_at "record" m

  unfoldable pub read_record : String → Action W (Result (Option (FilePendingRecord (Value N))))
  read_record path = do
    read ← host.read_file path
    elim read [
      | missing ↦ pure (ok none)
      | failed e ↦ pure (err e)
      | contents sealed ↦ elim (decrypt json s.cipher sealed) [
        | err _ ↦ drop_record path
        | ok decrypted ↦ elim (records.unmarshal (text_of decrypted)) [
          | err _ ↦ drop_record path
          | ok entry ↦ do
            now ← host.now
            if ltb_ℤ entry.expires (unix now) then drop_record path else pure (ok (some entry))
        ]
      ]
    ]

  abbrev pub metadata_of : Result (Option (FilePendingRecord (Value N))) → Result (GoMap (Value N))
  metadata_of (err e) = err e
  metadata_of (ok none) = ok none
  metadata_of (ok (some entry)) = ok entry.metadata

  unfoldable pub create : String → GoMap (Value N) → ℤ → Action W (Result (Unit {0}))
  unfolding write_record
  create key metadata ttl = write_record (meta_path lib s key) metadata ttl

  unfoldable pub get : String → Action W (Result (GoMap (Value N)))
  get key = do r ← read_record (meta_path lib s key); pure (metadata_of r)

  unfoldable pub pop : String → Action W (Result (GoMap (Value N)))
  pop key = do
    r ← read_record (meta_path lib s key)
    elim r [
      | err e ↦ pure (err e)
      | ok entry ↦ do host.remove (meta_path lib s key); pure (metadata_of (ok entry))
    ]

  unfoldable pub set_result : String → GoMap (Value N) → ℤ → Action W (Result (Unit {0}))
  unfolding write_record
  set_result key result ttl = write_record (done_path lib s key) result ttl

  -- the loop of `WaitForResult`
  unfoldable pub poll :
      ℕ → (ℤ → Action W Pause) → String → ℤ → Action W (Option (Result (GoMap (Value N))))
  unfolding next_round
  poll zero pause path deadline w = (none, w)
  poll (suc fuel) pause path deadline w =
      let again = poll fuel pause path deadline in
      (do
        r ← read_record path
        elim r [
          | ok (some entry) ↦ do host.remove path; pure (some (ok entry.metadata))
          | _ ↦ next_round host pause deadline again
        ])
        w

  -- `timeout` is the duration that the seconds are converted to
  unfoldable pub wait_for_result :
      ℕ → (ℤ → Action W Pause) → String → ℤ → Action W (Option (Result (GoMap (Value N))))
  wait_for_result fuel pause key timeout = do
    now ← host.now
    poll fuel pause (done_path lib s key) (now +ℤ timeout)

  -- The store as its interface; a wait is given, since it takes what others do meanwhile.
  abbrev pub file_pending_store :
      {M : Type 0} → (String → M → Action W (Result (GoMap (Value N)))) → PendingStore W M (Value N)
  file_pending_store wait = record {
    create = create;
    get = get;
    pop = pop;
    set_result = set_result;
    wait_for_result = wait;
  }
