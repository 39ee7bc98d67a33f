-- ===== src/Store/Encryption/Laws.antt =====
-- What `Encrypt` and `Decrypt`, `trimNewline` and the resolution of the key guarantee.
use mathlib.Core.List.{reverse-append, reverse-cons, reverse-reverse, append-nil, append_assoc}
use mcp_authkit_go.Base.{ℕ, true, false, [], ◌∷◌, ◌++◌, reverse}
use mcp_authkit_go.Base.{◌≡◌, ◌≢◌, refl, sym, ap, ◌∙◌, arith, eq_iff, inl, inr, Bool-cases, length}
use mcp_authkit_go.Base.{drop_while, length-append, take-append_length, drop-append_length}
use mcp_authkit_go.Base.{◌<◌}
use mcp_authkit_go.Base.Action.{message, ok, err, wrap_error, ◌>>=?◌, Result-cases}
use mcp_authkit_go.Host.{Bytes, Host, Library, Crypto, Json, IsAead, IsJson}
use mcp_authkit_go.Value.{GoMap}
use mcp_authkit_go.Store.Encryption.{
  Cipher, is_trimmed, trim_newline, new_cipher, ephemeral_cipher, cipher_from_file,
  new_cipher_from_env, encrypt, decrypt,
}

module _ {V : Type 0} (json : Json (GoMap V)) (c : Cipher) where
  decrypt-append :
      (nonce sealed : Bytes)
      → length nonce ≡ c.aead.nonce_size
      → decrypt json c (nonce ++ sealed) ≡ (
          wrap_error "store: decrypting" (c.aead.open_sealed nonce sealed) >>=? λ plaintext.
          wrap_error "store: unmarshaling decrypted value" (json.unmarshal plaintext))
  unfolding decrypt
  decrypt-append nonce sealed e =
      rw (← e, take-append_length, drop-append_length) (ground (arith, length-append nonce sealed))

  module _ {W : Type 0} (host : Host W) where
    pub encrypt-eq-ok :
        (v : GoMap V) (w : W) (b : Bytes)
        → (encrypt host json c v w).0 ≡ ok b
        → (plain nonce : Bytes) × (json.marshal v ≡ ok plain)
          × ((host.random c.aead.nonce_size w).0 ≡ ok nonce)
          × (b ≡ nonce ++ c.aead.seal nonce plain)
    unfolding encrypt
    encrypt-eq-ok v w b e = elim (Result-cases (json.marshal v)) [
      | inr (x, bad) ↦ absurd (ground arith)
      | inl (plain, good) ↦ elim (Result-cases (host.random c.aead.nonce_size w).0) [
        | inr (x, bad) ↦ absurd (ground arith)
        | inl (nonce, drawn) ↦ (plain, nonce, good, drawn, ground arith)
      ]
    ]

    -- `Decrypt` of what `Encrypt` returned is the value, in the form that JSON gives back, for a
    -- cipher that opens what it seals and a random source that fills its buffer.
    pub decrypt-encrypt :
        {stored : GoMap V → GoMap V}
        → IsAead c.aead
        → IsJson json stored
        → ((n : ℕ) (w : W) (b : Bytes) → (host.random n w).0 ≡ ok b → length b ≡ n)
        → (v : GoMap V) (w : W) (b : Bytes) → (encrypt host json c v w).0 ≡ ok b
        → decrypt json c b ≡ ok (stored v)
    decrypt-encrypt aead js full v w b e =
        let (plain, nonce, good, drawn, same) = encrypt-eq-ok v w b e in
        rw (same, decrypt-append, full _ w nonce drawn, aead.open-seal)
          (ground (arith, js.unmarshal-marshal v plain good))

  -- A ciphertext shorter than a nonce is an error, and is not handed to the cipher.
  pub decrypt_short :
      (b : Bytes)
      → length b < c.aead.nonce_size
      → decrypt json c b ≡ err (message "store: ciphertext too short")
  unfolding decrypt
  decrypt_short b h = ground arith

cons_head : {x y : ℕ} {xs ys : Bytes} → x ∷ xs ≡ y ∷ ys → x ≡ y
cons_head e = cc

abbrev pub AllTrimmed : Bytes → Type 0
AllTrimmed [] = Unit
AllTrimmed (b ∷ bs) = (is_trimmed b ≡ true) × AllTrimmed bs

AllTrimmed-append : (xs ys : Bytes) → AllTrimmed xs → AllTrimmed ys → AllTrimmed (xs ++ ys)
AllTrimmed-append [] ys h k = k
AllTrimmed-append (x ∷ xs) ys (p, h) k = (p, AllTrimmed-append xs ys h k)

-- The last byte, if there is one, is not to be removed.
abbrev pub EndsTrimmed : Bytes → Type 0
EndsTrimmed b = (x : ℕ) (xs : Bytes) → b ≡ xs ++ x ∷ [] → is_trimmed x ≡ false

drop_while-split :
    (xs : Bytes)
    → (pre : Bytes) × (reverse xs ≡ reverse (drop_while is_trimmed xs) ++ pre) × AllTrimmed pre
drop_while-split [] = ([], refl, tt)
drop_while-split (x ∷ xs) = elim (Bool-cases (is_trimmed x)) [
  | inl trims ↦
      let (pre, e, all) = drop_while-split xs in
      (
        pre ++ x ∷ [],
        rw (trims, reverse-cons, e)
            (append_assoc (reverse (drop_while is_trimmed xs)) pre (x ∷ [])),
        AllTrimmed-append pre (x ∷ []) all (trims, tt),
      )
  | inr stops ↦ ([], rw stops (sym (append-nil _)), tt)
]

drop_while-head :
    (xs : Bytes) (x : ℕ) (rest : Bytes) → drop_while is_trimmed xs ≡ x ∷ rest → is_trimmed x ≡ false
drop_while-head [] x rest e = cc
drop_while-head (y ∷ xs) x rest e = elim (Bool-cases (is_trimmed y)) [
  | inl trims ↦ drop_while-head xs x rest (rw trims at e)
  | inr stops ↦ let f : y ∷ xs ≡ x ∷ rest = rw stops at e in rw (← cons_head f) stops
]

-- `trimNewline` takes off a suffix of newlines, carriage returns and spaces, and all of it: what is
-- left does not end in such a byte.
pub trim_newline_lem :
    (b : Bytes)
    → ((suffix : Bytes) × (b ≡ trim_newline b ++ suffix) × AllTrimmed suffix)
      × EndsTrimmed (trim_newline b)
unfolding trim_newline
trim_newline_lem b =
    let (suffix, e, all) = drop_while-split (reverse b) in
    (
      (suffix, sym (reverse-reverse b) ∙ e, all),
      λ x xs f.
          drop_while-head (reverse b) x (reverse xs)
            (sym (reverse-reverse _) ∙ ap reverse f ∙ reverse-append xs (x ∷ [])),
    )

module _ {Block : Type 0} (crypto : Crypto Block) (lib : Library) where
  -- A cipher is built from a key of 32 bytes only.
  pub length-new_cipher :
      (key : Bytes) {c : Cipher} → new_cipher crypto lib key ≡ ok c → length key ≡ 32
  unfolding new_cipher
  length-new_cipher key e = ground arith

  -- Where STORAGE_ENCRYPTION_KEY is set, its decoded value alone makes the cipher: no file is read,
  -- no random key is drawn, and the world is unchanged. Otherwise the file named by
  -- STORAGE_ENCRYPTION_KEY_PATH decides, and a generated key is used only where neither is set.
  pub new_cipher_from_env-order :
      {W : Type 0} (host : Host W) (w : W)
      → (host.getenv "STORAGE_ENCRYPTION_KEY" w ≢ ""
          → new_cipher_from_env crypto lib host w ≡ (
            wrap_error "store: STORAGE_ENCRYPTION_KEY is not valid base64"
                  (lib.base64_decode (lib.bytes (host.getenv "STORAGE_ENCRYPTION_KEY" w)))
                >>=? new_cipher crypto lib,
            w,
          ))
        × (host.getenv "STORAGE_ENCRYPTION_KEY" w ≡ ""
            → host.getenv "STORAGE_ENCRYPTION_KEY_PATH" w ≢ ""
            → new_cipher_from_env crypto lib host w
              ≡ cipher_from_file crypto lib host (host.getenv "STORAGE_ENCRYPTION_KEY_PATH" w) w)
        × (host.getenv "STORAGE_ENCRYPTION_KEY" w ≡ ""
            → host.getenv "STORAGE_ENCRYPTION_KEY_PATH" w ≡ ""
            → new_cipher_from_env crypto lib host w ≡ ephemeral_cipher crypto lib host w)
  unfolding new_cipher_from_env
  new_cipher_from_env-order host w =
      let e = eq_iff (host.getenv "STORAGE_ENCRYPTION_KEY" w) "" in
      let p = eq_iff (host.getenv "STORAGE_ENCRYPTION_KEY_PATH" w) "" in
      (λ a. ground (arith, e), λ a b. ground (arith, e, p), λ a b. ground (arith, e, p))
