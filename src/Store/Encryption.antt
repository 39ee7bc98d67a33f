-- ===== src/Store/Encryption.antt =====
-- store/encryption.go: `Cipher`, its keys, and `Encrypt` and `Decrypt`.
pub mod Laws
use mcp_authkit_go.Base.{ℕ, String, Bool, not, ◌||◌, List, [], ◌++◌, ◌<>◌, reverse, ◌==◌}
use mcp_authkit_go.Base.{length, take, drop, drop_while, ltb, eqb, if◌then◌else◌}
use mcp_authkit_go.Base.Int.{pos}
use mcp_authkit_go.Base.Action.{
  Action, Error, message, wrapped, Result, ok, err, wrap_error, ◌>>=?◌, pure, ◌>>=◌, ◌>>◌,
}
use mcp_authkit_go.Host.{Bytes, Host, Library, Crypto, Aead, Json, contents, missing, failed}
use mcp_authkit_go.Value.{GoMap}

pub record Cipher : Type 0 where
  pub aead : Aead

-- what `trimNewline` removes
abbrev pub is_trimmed : ℕ → Bool
is_trimmed b = eqb b 10 || eqb b 13 || eqb b b' '

-- The loop takes the last byte off while it is to be removed: on the reversed bytes, the first.
unfoldable pub trim_newline : Bytes → Bytes
trim_newline b = reverse (drop_while is_trimmed (reverse b))

module _ {Block : Type 0} (crypto : Crypto Block) (lib : Library) where
  unfoldable pub new_cipher : Bytes → Result Cipher
  new_cipher key =
      if not (eqb (length key) 32)
      then err (
          message (
            "store: encryption key must be 32 bytes for AES-256, got "
            <> lib.decimal (pos (length key))))
      else (wrap_error "store: creating AES cipher" (crypto.new_aes key) >>=? λ block.
          wrap_error "store: creating GCM mode" (crypto.new_gcm block) >>=? λ aead.
          ok (record { aead = aead }))

  module _ {W : Type 0} (host : Host W) where
    -- the branch of STORAGE_ENCRYPTION_KEY_PATH
    unfoldable pub cipher_from_file : String → Action W (Result Cipher)
    cipher_from_file path = do
      read ← host.read_file path
      pure (elim read [
        | contents raw ↦
            wrap_error "store: key file at STORAGE_ENCRYPTION_KEY_PATH is not valid base64"
              (lib.base64_decode (trim_newline raw))
            >>=? new_cipher
        | missing ↦
            err
              (wrapped "store: reading STORAGE_ENCRYPTION_KEY_PATH" (message "file does not exist"))
        | failed e ↦ err (wrapped "store: reading STORAGE_ENCRYPTION_KEY_PATH" e)
      ])

    -- neither variable is set: a generated key, with a warning, whose text is cut here
    unfoldable pub ephemeral_cipher : Action W (Result Cipher)
    ephemeral_cipher = do
      key ← host.random 32
      elim key [
        | err e ↦ pure (err (wrapped "store: generating ephemeral encryption key" e))
        | ok k ↦ do
          host.log "store: WARNING no STORAGE_ENCRYPTION_KEY or STORAGE_ENCRYPTION_KEY_PATH set"
          pure (new_cipher k)
      ]

    unfoldable pub new_cipher_from_env : Action W (Result Cipher)
    new_cipher_from_env w =
        let raw = host.getenv "STORAGE_ENCRYPTION_KEY" w in
        let path = host.getenv "STORAGE_ENCRYPTION_KEY_PATH" w in
        if not (raw == "")
        then (
          wrap_error "store: STORAGE_ENCRYPTION_KEY is not valid base64"
                (lib.base64_decode (lib.bytes raw))
              >>=? new_cipher,
          w,
        )
        else if not (path == "")
        then cipher_from_file path w
        else ephemeral_cipher w

module _ {W V : Type 0} (host : Host W) (json : Json (GoMap V)) (c : Cipher) where
  unfoldable pub encrypt : GoMap V → Action W (Result Bytes)
  encrypt v = elim (json.marshal v) [
    | err e ↦ pure (err (wrapped "store: marshaling value" e))
    | ok plaintext ↦ do
      nonce ← host.random c.aead.nonce_size
      pure (elim nonce [
        | err e ↦ err (wrapped "store: generating nonce" e)
        | ok n ↦ ok (n ++ c.aead.seal n plaintext)
      ])
  ]

module _ {V : Type 0} (json : Json (GoMap V)) (c : Cipher) where
  unfoldable pub decrypt : Bytes → Result (GoMap V)
  decrypt ciphertext =
      let size = c.aead.nonce_size in
      if ltb (length ciphertext) size
      then err (message "store: ciphertext too short")
      else (wrap_error "store: decrypting"
            (c.aead.open_sealed (take size ciphertext) (drop size ciphertext))
          >>=? λ plaintext.
              wrap_error "store: unmarshaling decrypted value" (json.unmarshal plaintext))
