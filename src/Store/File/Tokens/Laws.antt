-- ===== src/Store/File/Tokens/Laws.antt =====
-- `FileTokenStore` of store/file.go keeps the contract of a store, over a file system whose reads
-- succeed and an authenticated cipher.
use mcp_authkit_go.Base.{String, Bool, false, Option, none, some, ◌≡◌, ◌≢◌, sym, ap, ◌∙◌}
use mcp_authkit_go.Base.{arith, eq_iff, inl, inr}
use mcp_authkit_go.Base.Action.{Result, ok, err, Result-cases}
use mcp_authkit_go.Host.{
  Bytes, Host, Library, Json, Files, IsHost, IsAead, IsJson, removed, Removal,
}
use mcp_authkit_go.Value.{GoMap}
use mcp_authkit_go.Store.{IsTokenStore}
use mcp_authkit_go.Store.Encryption.{encrypt, decrypt}
use mcp_authkit_go.Store.Encryption.Laws.{decrypt-encrypt}
use mcp_authkit_go.Store.File.{FileTokenStore, token_path}
use mcp_authkit_go.Store.File.Atomic.{atomic_write_file-Writes}
use mcp_authkit_go.Store.File.Tokens.{get, set, delete, file_token_store}

module _ {W V : Type 0} (host : Host W) (lib : Library) (json : Json (GoMap V)) (s : FileTokenStore)
    {files : W → Files} {is_temp : String → Bool} (h : IsHost host files is_temp)
    (plain : (sub : String) → is_temp (token_path lib s sub) ≡ false) where
  abbrev pub opened : Option Bytes → Result (GoMap V)
  opened none = ok none
  opened (some b) = elim (decrypt json s.cipher b) [ ok v ↦ ok v | err _ ↦ ok none ]

  -- What `Get` returns is decided by the file of its subject: nil where there is none and where it
  -- cannot be decrypted, never an error. Other files are left alone, and so is one that it can
  -- read.
  pub get_lem :
      (sub : String) (w : W)
      → ((get host lib json s sub w).0 ≡ opened (files w (token_path lib s sub)))
        × ((q : String)
            → token_path lib s sub ≢ q
            → files (get host lib json s sub w).1 q ≡ files w q)
        × ((b : Bytes) (v : GoMap V)
            → files w (token_path lib s sub) ≡ some b
            → decrypt json s.cipher b ≡ ok v
            → files (get host lib json s sub w).1 ≡ files w)
  unfolding get
  get_lem sub w =
      let p = token_path lib s sub in
      let seen = h.read_lem p w in
      let w' = (host.read_file p w).1 in
      (
        ground (arith, seen),
        λ q n.
            ground
              (arith, seen, ap (λ (x : Files). x q) (h.files-read p w), h.files-remove_ne p q w' n),
        λ b v at_p good. ground (arith, seen, h.files-read p w),
      )

  encrypt-kept :
      (m : GoMap V) (w : W) (q : String) → files (encrypt host json s.cipher m w).1 q ≡ files w q
  unfolding encrypt
  encrypt-kept m w q =
      ground (arith, ap (λ (x : Files). x q) (h.files-random s.cipher.aead.nonce_size w))

  module _ {stored : GoMap V → GoMap V} (aead : IsAead s.cipher.aead) (js : IsJson json stored)
      (apart : (a b : String) → a ≢ b → token_path lib s a ≢ token_path lib s b) where
    set_lem :
        (sub : String) (m : GoMap V) (w : W)
        → (set host lib json s sub m w).0 ≡ ok tt
        → (opened (files (set host lib json s sub m w).1 (token_path lib s sub)) ≡ ok (stored m))
          × ((q : String)
              → is_temp q ≡ false
              → q ≢ token_path lib s sub
              → files (set host lib json s sub m w).1 q ≡ files w q)
    unfolding set
    set_lem sub m w e = elim (Result-cases (encrypt host json s.cipher m w).0) [
      | inr (x, bad) ↦ absurd (ground arith)
      | inl (b, good) ↦
          let w' = (encrypt host json s.cipher m w).1 in
          let p = token_path lib s sub in
          let (new, _, others) = atomic_write_file-Writes host lib h p (plain sub) b w' in
          let at = new (ground arith) in
          let back = decrypt-encrypt json s.cipher host aead js h.length-random m w b good in
          (ground (arith, at, back), λ q f n. ground (arith, others q f n, encrypt-kept m w q))
    ]

    delete_lem :
        (sub : String) (w : W)
        → (delete host lib json s sub w).0 ≡ ok tt
        → (files (delete host lib json s sub w).1 (token_path lib s sub) ≡ none)
          × ((q : String)
              → q ≢ token_path lib s sub
              → files (delete host lib json s sub w).1 q ≡ files w q)
    unfolding delete
    delete_lem sub w e =
        let p = token_path lib s sub in
        let gone =
          λ (r : (host.remove p w).0 ≡ removed). ap (λ (x : Files). x p) (h.files-remove p w r) in
        let absent = λ (r : (host.remove p w).0 ≡ Removal.missing).
          let (none_before, same) = h.files-remove_missing p w r in
          ap (λ (x : Files). x p) same ∙ none_before in
        (ground (arith, gone, absent, eq_iff p p), λ q n. h.files-remove_ne p q w (λ x. n (sym x)))

    -- `FileTokenStore` is a map from subjects to values, where different subjects have different
    -- paths, none of them that of a temporary file, and the file system, the cipher and JSON keep
    -- their contracts. It may fail to write, and a value comes back in the form that JSON gives.
    pub file_token_store-IsTokenStore : IsTokenStore (file_token_store host lib json s) stored
    file_token_store-IsTokenStore = record {
      get-set_self = λ sub m w e. (get_lem sub _).0 ∙ (set_lem sub m w e).0;
      get-set_ne = λ sub other m w ne e.
          (get_lem other _).0
          ∙ ap opened
              ((set_lem sub m w e).1 _ (plain other) (λ same. apart sub other ne (sym same)))
          ∙ sym (get_lem other w).0;
      get-delete_self = λ sub w e. (get_lem sub _).0 ∙ ap opened (delete_lem sub w e).0;
      get-delete_ne = λ sub other w ne e.
          (get_lem other _).0
          ∙ ap opened ((delete_lem sub w e).1 _ (λ same. apart sub other ne (sym same)))
          ∙ sym (get_lem other w).0;
    }
