-- ===== src/Tests/Toys.antt =====
-- Concrete parameters for the examples: floats that are integers, a library of pure functions, a
-- file system, a key-value server and a network that are functions.
use mcp_authkit_go.Base.{ℕ, zero, suc, String, Bool, none, some, [], ◌∷◌, ◌≡◌, refl, ap, inl, inr}
use mcp_authkit_go.Base.{arith, eq_iff, ◌==◌, ◌<>◌, length, Option-cases}
use mcp_authkit_go.Base.Int.{ℤ, pos, ◌+ℤ◌, ◌*ℤ◌, ltb_ℤ, floor_div}
use mcp_authkit_go.Base.Action.{Action, message, Result, ok, err}
use mcp_authkit_go.Host.{
  Bytes, Read, Removal, removed, Host, Library, Aead, Json, IsAead, IsJson, Files, put_file,
  as_read, IsHost,
}
use mcp_authkit_go.Tests.Names.{codes, marks}
use mcp_authkit_go.Value.{Float64, GoMap}
use mcp_authkit_go.Store.Encryption.{Cipher}
use mcp_authkit_go.Store.Redis.{Exec, done, Client, Content, put_key, as_reply, IsClient}

abbrev pub toy_float : Float64 ℤ
toy_float = record {
  of_int = λ n. n;
  to_int = λ n. n;
  plus = λ a b. a +ℤ b;
  times = λ a b. a *ℤ b;
  less = ltb_ℤ;
  seconds = λ d. floor_div d 1_000_000_000;
}

abbrev pub toy_library : Library
toy_library = record {
  bytes = codes;
  sha256 = λ b. b;
  hex = marks;
  base64_decode = λ b. ok b;
  join = λ a b. a <> "/" <> b;
  dir = λ p. "d";
  quote = λ s. "\"" <> s <> "\"";
  decimal = λ n. "n";
  escape_html = λ s. s;
  escape_query = λ s. s;
  trim_space = λ s. s;
}

-- A cipher that leaves the text as it is, with nonces of no bytes.
abbrev pub toy_aead : Aead
toy_aead = record { nonce_size = 0; seal = λ n p. p; open_sealed = λ n c. ok c }

pub toy_aead-IsAead : IsAead toy_aead
toy_aead-IsAead = record { open-seal = λ n p. refl }

abbrev pub toy_cipher : Cipher
toy_cipher = record { aead = toy_aead }

-- A JSON that encodes a natural number, as the value of a map that counts nothing else.
abbrev pub decode_number : Bytes → Result (GoMap ℕ)
decode_number [] = ok none
decode_number (n ∷ b) = ok (some (("n", n) ∷ []))

abbrev pub encode_number : GoMap ℕ → Result Bytes
encode_number none = ok []
encode_number (some []) = err (message "empty")
encode_number (some ((k, n) ∷ m)) = ok (n ∷ [])

abbrev pub renamed : GoMap ℕ → GoMap ℕ
renamed none = none
renamed (some []) = none
renamed (some ((k, n) ∷ m)) = some (("n", n) ∷ [])

abbrev pub toy_json : Json (GoMap ℕ)
toy_json = record { marshal = encode_number; unmarshal = decode_number }

pub toy_json-IsJson : IsJson toy_json renamed
toy_json-IsJson = record { unmarshal-marshal = back }
  where
    back : (v : GoMap ℕ) (b : Bytes) → encode_number v ≡ ok b → decode_number b ≡ ok (renamed v)
    back none b e = ground arith
    back (some []) b e = absurd (ground arith)
    back (some ((k, n) ∷ m)) b e = ground arith

-- A host of files, whose clock stands at 0, with one path for temporary files.
abbrev pub zero_bytes : ℕ → Bytes
zero_bytes zero = []
zero_bytes (suc n) = 0 ∷ zero_bytes n

abbrev pub toy_temp : String → Action Files (Result String)
toy_temp d w = elim (w "~") [
  | none ↦ (ok "~", put_file w "~" (some []))
  | some _ ↦ (err (message "exists"), w)
]

abbrev pub toy_remove : String → Action Files Removal
toy_remove p w = elim (w p) [ none ↦ (Removal.missing, w) | some _ ↦ (removed, put_file w p none) ]

abbrev pub toy_host : Host Files
toy_host = record {
  now = λ w. (pos 0, w);
  getenv = λ k w. "";
  log = λ s w. (tt, w);
  random = λ n w. (ok (zero_bytes n), w);
  read_file = λ p w. (as_read (w p), w);
  remove = toy_remove;
  mkdir_all = λ p w. (ok tt, w);
  create_temp = toy_temp;
  write = λ p b w. (ok tt, put_file w p (some b));
  close = λ p w. (ok tt, w);
  rename = λ p q w. (ok tt, put_file (put_file w p none) q (w p));
}

abbrev pub is_toy_temp : String → Bool
is_toy_temp p = p == "~"

pub length-zero_bytes : (n : ℕ) → length (zero_bytes n) ≡ n
length-zero_bytes zero = refl
length-zero_bytes (suc n) = ap suc (length-zero_bytes n)

pub toy_random : (n : ℕ) (w : Files) (b : Bytes) → (toy_host.random n w).0 ≡ ok b → length b ≡ n
toy_random n w b e = ground (arith, length-zero_bytes n)

pub toy_host-IsHost : IsHost toy_host (λ w. w) is_toy_temp
toy_host-IsHost = record {
  files-now = λ w. refl;
  files-random = λ n w. refl;
  length-random = toy_random;
  read_lem = λ p w. refl;
  files-read = λ p w. refl;
  files-mkdir = λ p w. refl;
  files-close = λ p w. refl;
  temp_new = λ d p w e. elim (Option-cases (w "~")) [
    | inl free ↦ (ground (arith, eq_iff p "~"), ground (arith, free))
    | inr (b, taken) ↦ absurd (ground arith)
  ];
  files-temp = λ d q w e. elim (Option-cases (w "~")) [
    | inl free ↦ ground (arith, eq_iff "~" q)
    | inr (b, taken) ↦ ground arith
  ];
  files-write_self = λ p b w e. ground (arith, eq_iff p p);
  files-write_ne = λ p q b w ne. ground (arith, eq_iff p q);
  files-rename = λ p q w e. refl;
  files-rename_failed = λ p q e w f. absurd (ground arith);
  files-remove = λ p w e. elim (Option-cases (w p)) [
    | inl free ↦ absurd (ground arith)
    | inr (b, taken) ↦ ground arith
  ];
  files-remove_missing = λ p w e. elim (Option-cases (w p)) [
    | inl free ↦ (free, ground arith)
    | inr (b, taken) ↦ absurd (ground arith)
  ];
  files-remove_ne = λ p q w ne. elim (Option-cases (w p)) [
    | inl free ↦ ground arith
    | inr (b, taken) ↦ ground (arith, eq_iff p q)
  ];
}

-- A host beside that server: it draws bytes, and has no files.
abbrev pub toy_redis_host : Host Content
toy_redis_host = record {
  now = λ w. (pos 0, w);
  getenv = λ k w. "";
  log = λ s w. (tt, w);
  random = λ n w. (ok (zero_bytes n), w);
  read_file = λ p w. (Read.missing, w);
  remove = λ p w. (Removal.missing, w);
  mkdir_all = λ p w. (ok tt, w);
  create_temp = λ d w. (err (message "no files"), w);
  write = λ p b w. (err (message "no files"), w);
  close = λ p w. (ok tt, w);
  rename = λ p q w. (err (message "no files"), w);
}

-- A server whose commands always succeed, with the clock of the host above.
abbrev pub toy_client : Client Content
toy_client = record {
  get = λ k w. (as_reply (w k), w);
  set = λ k b d w. (ok tt, put_key w k (some b));
  del = λ k w. (ok tt, put_key w k none);
  exists = λ k w. (ok (elim (w k) [ none ↦ 0 | some _ ↦ 1 ]), w);
  get_and_del =
      λ k w. ((elim (w k) [ none ↦ Exec.nil | some _ ↦ done ], as_reply (w k)), put_key w k none);
}

pub toy_client-IsClient : IsClient toy_client (λ w. w)
toy_client-IsClient = record {
  get_lem = λ k w. refl;
  content-get = λ k w. refl;
  content-set = λ k b d w e. refl;
  content-del = λ k w e. refl;
  content-del_failed = λ k w e f. absurd (ground arith);
  get_and_del_lem = λ k w. refl;
  content-get_and_del = λ k w. refl;
}
