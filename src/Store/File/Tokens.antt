-- ===== src/Store/File/Tokens.antt =====
-- store/file.go: the methods of `FileTokenStore`.
pub mod Laws
use mcp_authkit_go.Base.{String, none}
use mcp_authkit_go.Base.Action.{Action, Result, ok, err, pure, ◌>>=◌, ◌>>◌}
use mcp_authkit_go.Host.{Host, Library, Json, Read, contents, missing, failed, removed, Removal}
use mcp_authkit_go.Value.{GoMap}
use mcp_authkit_go.Store.{TokenStore}
use mcp_authkit_go.Store.Encryption.{encrypt, decrypt}
use mcp_authkit_go.Store.File.{FileTokenStore, token_path, atomic_write_file}

module _ {W V : Type 0} (host : Host W) (lib : Library) (json : Json (GoMap V))
    (s : FileTokenStore) where
  unfoldable pub get : String → Action W (Result (GoMap V))
  get sub = do
    read ← host.read_file (token_path lib s sub)
    elim read [
      | missing ↦ pure (ok none)
      | failed e ↦ pure (err e)
      | contents sealed ↦ elim (decrypt json s.cipher sealed) [
        | ok v ↦ pure (ok v)
        | err _ ↦ do host.remove (token_path lib s sub); pure (ok none)
      ]
    ]

  unfoldable pub set : String → GoMap V → Action W (Result (Unit {0}))
  set sub value = do
    sealed ← encrypt host json s.cipher value
    elim sealed [
      | err e ↦ pure (err e)
      | ok b ↦ atomic_write_file host lib (token_path lib s sub) b
    ]

  unfoldable pub delete : String → Action W (Result (Unit {0}))
  delete sub = do
    gone ← host.remove (token_path lib s sub)
    pure (elim gone [ removed ↦ ok tt | Removal.missing ↦ ok tt | Removal.failed e ↦ err e ])

  abbrev pub file_token_store : TokenStore W V
  file_token_store = record { get = get; set = set; delete = delete }
