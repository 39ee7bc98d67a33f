-- ===== src/Tests/Polling.antt =====
-- The waits that poll, at a world that is a clock, a pop of a pending file, and the factory with no
-- key.
use mcp_authkit_go.Base.{ℕ, ◌+◌, ◌≤◌, String, none, some, [], ◌≡◌, refl, arith}
use mcp_authkit_go.Base.Int.{ℤ, pos, negsuc}
use mcp_authkit_go.Base.Action.{Action, Error, message, Result, ok, err}
use mcp_authkit_go.Host.{Read, Removal, Host, Crypto, Json, Files}
use mcp_authkit_go.Value.{GoMap, Value}
use mcp_authkit_go.Store.File.{FilePendingStore}
use mcp_authkit_go.Store.File.Pending.{RecordJson, Pause, elapsed, read_record, wait_for_result}
use mcp_authkit_go.Store.File.Pending.Laws.{IsClock, wait_for_result-returns}
use mcp_authkit_go.Store.Redis.{Reply, Exec, Client, RedisPendingStore}
use mcp_authkit_go.Store.Redis.Pending
use mcp_authkit_go.Value.{str}
use mcp_authkit_go.Base.{◌≢◌, ◌∷◌, inl, inr, Option-cases}
use mcp_authkit_go.Store.Redis.Pending.Waits.{redis_wait-returns}
use mcp_authkit_go.Store.Factory.{FactoryOptions, Stores, memory, Connector, create_stores}
use mcp_authkit_go.Store.Factory.Laws.{create_stores_unkeyed}
use mcp_authkit_go.Tests.Toys.{toy_library, toy_cipher, toy_json, toy_host}

abbrev clock_host : Host ℕ
clock_host = record {
  now = λ w. (pos w, w);
  getenv = λ k w. "";
  log = λ s w. (tt, w);
  random = λ n w. (err (message "none"), w);
  read_file = λ p w. (Read.missing, w);
  remove = λ p w. (Removal.missing, w);
  mkdir_all = λ p w. (ok tt, w);
  create_temp = λ d w. (err (message "no files"), w);
  write = λ p b w. (err (message "no files"), w);
  close = λ p w. (ok tt, w);
  rename = λ p q w. (err (message "no files"), w);
}

abbrev sleep : ℤ → Action ℕ Pause
sleep (pos n) w = (elapsed, w + n)
sleep (negsuc n) w = (elapsed, w)

sleep-IsClock : IsClock clock_host.now sleep (λ w. w)
sleep-IsClock = record {
  now_lem = λ w. refl;
  clock-now = λ w. omega arith;
  clock-pause = λ n w e. omega arith;
}

abbrev pub value_json : Json (GoMap (Value ℤ))
value_json = record { marshal = λ v. ok []; unmarshal = λ b. ok none }

abbrev no_records : RecordJson (Value ℤ)
no_records = record { marshal = λ r. ok ""; unmarshal = λ s. err (message "none") }

abbrev pub pending_files : FilePendingStore
pending_files = record { dir = "pending"; cipher = toy_cipher }

reads :
    (p : String) (w : ℕ)
    → w ≤ (read_record clock_host toy_library value_json no_records pending_files p w).1
unfolding read_record
reads p w = omega arith

-- A wait of two seconds.
wait_for_result-returns_example :
    (r : Result (GoMap (Value ℤ))) × ((wait_for_result clock_host toy_library value_json no_records
        pending_files 6 sleep "k"
        (pos 2_000_000_000)
        0).0
      ≡ some r)
wait_for_result-returns_example =
    wait_for_result-returns clock_host toy_library value_json no_records pending_files sleep
      sleep-IsClock reads 5 2_000_000_000 "k" 0 (omega arith)

-- Every text stands for one record.
abbrev pub one_record : RecordJson (Value ℤ)
one_record = record {
  marshal = λ r. ok "";
  unmarshal = λ s. ok (record { metadata = some (("sub", str "u") ∷ []); expires = pos 5 });
}

pub toy_removes : (p : String) (w : Files) (e : Error) → (toy_host.remove p w).0 ≢ Removal.failed e
toy_removes p w e f = elim (Option-cases (w p)) [
  | inl free ↦ ground arith
  | inr (b, there) ↦ ground arith
]

abbrev empty_server : Client ℕ
empty_server = record {
  get = λ k w. (Reply.nil, w);
  set = λ k b d w. (ok tt, w);
  del = λ k w. (ok tt, w);
  exists = λ k w. (ok 0, w);
  get_and_del = λ k w. ((Exec.nil, Reply.nil), w);
}

abbrev pending_keys : RedisPendingStore
pending_keys = record { prefix = "p:"; cipher = toy_cipher }

redis_wait-returns_example :
    (r : Result (GoMap ℕ)) × ((Pending.wait_for_result clock_host empty_server toy_library toy_json
        pending_keys 6 sleep "k"
        (pos 2_000_000_000)
        0).0
      ≡ some r)
redis_wait-returns_example =
    redis_wait-returns clock_host empty_server toy_library toy_json pending_keys sleep sleep-IsClock
      (λ k w. omega arith) 5 2_000_000_000 "k" 0 (omega arith)

abbrev no_crypto : Crypto (Unit {0})
no_crypto = record { new_aes = λ k. err (message "none"); new_gcm = λ b. err (message "none") }

abbrev no_server : Connector Files
no_server = record { connect = λ u. err (message "none") }

abbrev file_options : FactoryOptions
file_options = record {
  mode = "file";
  file_path = "";
  redis_url = "";
  redis_prefix = "";
  namespace = "git";
}

create_stores_unkeyed_example :
    ((s : Stores Files)
      → (create_stores toy_host toy_library no_crypto no_server file_options (λ p. none)).0 ≡ ok s
      → s ≡ memory)
    × ((create_stores toy_host toy_library no_crypto no_server file_options (λ p. none)).1
        ≡ (λ p. none))
create_stores_unkeyed_example =
    create_stores_unkeyed toy_host toy_library no_crypto no_server file_options (λ p. none) refl
      refl
