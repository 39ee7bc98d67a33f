-- ===== src/Store/File.antt =====
-- store/file.go: `atomicWriteFile`, `FileTokenStore` and `FilePendingStore`.
pub mod Atomic
pub mod Tokens
pub mod Pending
use mcp_authkit_go.Base.{ℕ, zero, suc, String, Bool, not, none, some, ◌<>◌, ◌==◌, if◌then◌else◌}
use mcp_authkit_go.Base.{[], ◌∷◌, Option}
use mcp_authkit_go.Base.Int.{ℤ, pos, ◌+ℤ◌, floor_div, ltb_ℤ}
use mcp_authkit_go.Base.Action.{Action, Error, Result, ok, err, wrap_error, pure, ◌>>=◌, ◌>>◌}
use mcp_authkit_go.Host.{Bytes, Host, Library, Json, Read, contents, removed, Removal}
use mcp_authkit_go.Value.{Float64, Value, str, GoMap, string_at}
use mcp_authkit_go.Store.{TokenStore, PendingStore}
use mcp_authkit_go.Store.Encryption.{Cipher, encrypt, decrypt}
use mcp_authkit_go.Store.Memory.{duration_seconds, after}

unfoldable pub safe_name : Library → String → String
safe_name lib key = lib.hex (lib.sha256 (lib.bytes key))

pub record FileTokenStore : Type 0 where
  pub dir : String
  pub cipher : Cipher

pub record FilePendingStore : Type 0 where
  pub dir : String
  pub cipher : Cipher

pub record FilePendingRecord (V : Type 0) : Type 0 where
  pub metadata : GoMap V
  -- seconds since the epoch
  pub expires : ℤ

-- t.Unix() of a time in nanoseconds
abbrev pub unix : ℤ → ℤ
unix t = floor_div t 1_000_000_000

abbrev pub file_poll_interval : ℤ
file_poll_interval = pos 500_000_000

module _ {W : Type 0} (host : Host W) (lib : Library) where
  -- from the write to the temporary file on
  unfoldable pub fill_and_rename : String → String → Bytes → Action W (Result (Unit {0}))
  fill_and_rename temp_path path content = do
    written ← host.write temp_path content
    elim written [
      | err e ↦ do host.close temp_path; host.remove temp_path; pure (err e)
      | ok _ ↦ do
        closed ← host.close temp_path
        elim closed [
          | err e ↦ do host.remove temp_path; pure (err e)
          | ok _ ↦ host.rename temp_path path
        ]
    ]

  unfoldable pub atomic_write_file : String → Bytes → Action W (Result (Unit {0}))
  atomic_write_file path content = do
    made ← host.mkdir_all (lib.dir path)
    elim made [
      | err e ↦ pure (err e)
      | ok _ ↦ do
        temp ← host.create_temp (lib.dir path)
        elim temp [ err e ↦ pure (err e) | ok temp_path ↦ fill_and_rename temp_path path content ]
    ]

  unfoldable pub new_file_token_store : String → String → Cipher → Action W (Result FileTokenStore)
  new_file_token_store storage_path namespace cipher = do
    let root = lib.join storage_path "tokens"
    let dir = if not (namespace == "") then lib.join root namespace else root
    made ← host.mkdir_all dir
    pure (elim (wrap_error "store: creating token store dir" made) [
      | err e ↦ err e
      | ok _ ↦ ok (record { dir = dir; cipher = cipher })
    ])

  unfoldable pub new_file_pending_store : String → Cipher → Action W (Result FilePendingStore)
  new_file_pending_store storage_path cipher = do
    let dir = lib.join storage_path "pending"
    made ← host.mkdir_all dir
    pure (elim (wrap_error "store: creating pending store dir" made) [
      | err e ↦ err e
      | ok _ ↦ ok (record { dir = dir; cipher = cipher })
    ])

abbrev pub token_path : Library → FileTokenStore → String → String
token_path lib s sub = lib.join s.dir (safe_name lib sub <> ".enc")

abbrev pub meta_path : Library → FilePendingStore → String → String
meta_path lib s key = lib.join s.dir (safe_name lib key <> ".enc")

abbrev pub done_path : Library → FilePendingStore → String → String
done_path lib s key = lib.join s.dir (safe_name lib key <> ".done.enc")
