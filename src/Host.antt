-- ===== src/Host.antt =====
-- What the program calls and does not implement, as parameters: the operating system (files, the
-- clock, the environment, the random source), and pure functions of the standard library.
use mcp_authkit_go.Base.{
  ℕ, zero, suc, [], ◌∷◌, String, Bool, true, Option, none, some, List, length, ◌≡◌, ◌≢◌,
}
use mcp_authkit_go.Base.{◌==◌, if◌then◌else◌}
use mcp_authkit_go.Base.Int.{ℤ}
use mcp_authkit_go.Base.Action.{Action, Error, Result, ok, err}

abbrev pub Bytes : Type 0
Bytes = List ℕ

-- make([]byte, n)
abbrev pub zeros : ℕ → Bytes
zeros zero = []
zeros (suc n) = 0 ∷ zeros n

-- os.ReadFile: `missing` is an error for which os.IsNotExist holds
pub data Read : Type 0 where
  contents : Bytes → Read
  missing : Read
  failed : Error → Read

-- os.Remove
pub data Removal : Type 0 where
  removed : Removal
  missing : Removal
  failed : Error → Removal

pub record Host (W : Type 0) : Type 0 where
  -- time.Now(), in nanoseconds since the epoch
  pub now : Action W ℤ
  -- os.Getenv, "" for a variable that is not set
  pub getenv : String → W → String
  -- a line on stderr or in the log
  pub log : String → Action W (Unit {0})
  -- so many bytes of crypto/rand
  pub random : ℕ → Action W (Result Bytes)
  pub read_file : String → Action W Read
  pub remove : String → Action W Removal
  pub mkdir_all : String → Action W (Result (Unit {0}))
  -- os.CreateTemp(dir, ".tmp-*"): the path of the new file
  pub create_temp : String → Action W (Result String)
  pub write : String → Bytes → Action W (Result (Unit {0}))
  pub close : String → Action W (Result (Unit {0}))
  pub rename : String → String → Action W (Result (Unit {0}))

pub record Library : Type 0 where
  -- []byte(s)
  pub bytes : String → Bytes
  pub sha256 : Bytes → Bytes
  -- hex.EncodeToString
  pub hex : Bytes → String
  pub base64_decode : Bytes → Result Bytes
  -- filepath.Join of two elements, and filepath.Dir
  pub join : String → String → String
  pub dir : String → String
  -- fmt's %q and %d
  pub quote : String → String
  pub decimal : ℤ → String
  -- html.EscapeString, url.QueryEscape and strings.TrimSpace
  pub escape_html : String → String
  pub escape_query : String → String
  pub trim_space : String → String

-- cipher.AEAD, for one key
pub record Aead : Type 0 where
  pub nonce_size : ℕ
  -- Seal(nil, nonce, plaintext, nil) and Open(nil, nonce, ciphertext, nil)
  pub seal : Bytes → Bytes → Bytes
  pub open_sealed : Bytes → Bytes → Result Bytes

-- aes.NewCipher and cipher.NewGCM
pub record Crypto (Block : Type 0) : Type 0 where
  pub new_aes : Bytes → Result Block
  pub new_gcm : Block → Result Aead

-- encoding/json for a type `A`
pub record Json (A : Type 0) : Type 0 where
  pub marshal : A → Result Bytes
  pub unmarshal : Bytes → Result A

-- What is opened is what was sealed under the same key and nonce.
pub record IsAead (a : Aead) : Type 0 where
  pub open-seal :
      (nonce plaintext : Bytes) → a.open_sealed nonce (a.seal nonce plaintext) ≡ ok plaintext

-- What is decoded is what JSON keeps of the encoded value, `stored v`.
pub record IsJson {A : Type 0} (j : Json A) (stored : A → A) : Type 0 where
  pub unmarshal-marshal : (v : A) (b : Bytes) → j.marshal v ≡ ok b → j.unmarshal b ≡ ok (stored v)

-- The file system as a map from paths to contents.
abbrev pub Files : Type 0
Files = String → Option Bytes

abbrev pub put_file : Files → String → Option Bytes → Files
put_file f p c q = if p == q then c else f q

abbrev pub as_read : Option Bytes → Read
as_read none = Read.missing
as_read (some b) = contents b

-- How the calls act on files: what a success means, and what a failed call may have touched.
-- `is_temp` tells the paths that os.CreateTemp makes. Reading does not fail.
pub record IsHost {W : Type 0} (h : Host W) (files : W → Files) (is_temp : String → Bool)
    : Type 0 where
  pub files-now : (w : W) → files (h.now w).1 ≡ files w
  pub files-random : (n : ℕ) (w : W) → files (h.random n w).1 ≡ files w
  pub length-random : (n : ℕ) (w : W) (b : Bytes) → (h.random n w).0 ≡ ok b → length b ≡ n
  pub read_lem : (p : String) (w : W) → (h.read_file p w).0 ≡ as_read (files w p)
  pub files-read : (p : String) (w : W) → files (h.read_file p w).1 ≡ files w
  pub files-mkdir : (p : String) (w : W) → files (h.mkdir_all p w).1 ≡ files w
  pub files-close : (p : String) (w : W) → files (h.close p w).1 ≡ files w
  pub temp_new :
      (d p : String) (w : W)
      → (h.create_temp d w).0 ≡ ok p
      → (is_temp p ≡ true) × (files w p ≡ none)
  pub files-temp :
      (d q : String) (w : W)
      → (h.create_temp d w).0 ≢ ok q
      → files (h.create_temp d w).1 q ≡ files w q
  pub files-write_self :
      (p : String) (b : Bytes) (w : W)
      → (h.write p b w).0 ≡ ok tt
      → files (h.write p b w).1 p ≡ some b
  pub files-write_ne :
      (p q : String) (b : Bytes) (w : W) → p ≢ q → files (h.write p b w).1 q ≡ files w q
  pub files-rename :
      (p q : String) (w : W)
      → (h.rename p q w).0 ≡ ok tt
      → files (h.rename p q w).1 ≡ put_file (put_file (files w) p none) q (files w p)
  pub files-rename_failed :
      (p q : String) (e : Error) (w : W)
      → (h.rename p q w).0 ≡ err e
      → files (h.rename p q w).1 ≡ files w
  pub files-remove :
      (p : String) (w : W)
      → (h.remove p w).0 ≡ removed
      → files (h.remove p w).1 ≡ put_file (files w) p none
  pub files-remove_missing :
      (p : String) (w : W)
      → (h.remove p w).0 ≡ Removal.missing
      → (files w p ≡ none) × (files (h.remove p w).1 ≡ files w)
  pub files-remove_ne : (p q : String) (w : W) → p ≢ q → files (h.remove p w).1 q ≡ files w q
