-- ===== src/Tests/Records.antt =====
-- The pending store of store/file.go, at a file system that is a function and a JSON that counts.
use package.text.Mathlib.TextLemmas.{append_cancel_left, append_cancel_right}
use mcp_authkit_go.Base.{
  ℕ, zero, suc, ◌+◌, ◌*◌, ◌^◌, ◌<◌, ◌≤◌, String, Option, none, some, List, [], ◌∷◌, ◌≡◌, ◌≢◌, refl,
  sym, ap, ◌⊎◌, arith, eq_iff, inl, inr,
}
use mcp_authkit_go.Base.{◌==◌, ◌<>◌, Bool-cases, if◌then◌else◌}
use mcp_authkit_go.Base.Int.{ℤ, pos, negsuc}
use mcp_authkit_go.Base.Action.{Action, message, Result, ok, err}
use mcp_authkit_go.Host.{Bytes, Json, IsJson, Files}
use mcp_authkit_go.Value.{KeepsPlain, Value, str, GoMap, SameMap}
use mcp_authkit_go.Store.{IsPendingStore}
use mcp_authkit_go.Store.Subject.{entry_for}
use mcp_authkit_go.Store.Memory.Entries.{Lasts}
use mcp_authkit_go.Store.File.{FilePendingRecord, safe_name, meta_path, done_path}
use mcp_authkit_go.Store.File.Pending.{
  RecordJson, Pause, elapsed, create, get, pop, set_result, wait_for_result, file_pending_store,
}
use mcp_authkit_go.Store.File.Pending.Clock.{Stands}
use mcp_authkit_go.Store.File.Pending.Records.{IsRecordJson, entry}
use mcp_authkit_go.Store.File.Pending.Entries.{file_pending_store-IsPendingStore}
use mcp_authkit_go.Store.File.Pending.Lifetime.{file_create-lifetime}
use mcp_authkit_go.Store.File.Pending.Race.{pop_read, pop_remove, pop_twice, pops_race}
use mcp_authkit_go.Store.File.Pending.Answer.{file_set_result-wait_for_result}
use mcp_authkit_go.Tests.Names.{codes, marks, mark, marks_inj}
use mcp_authkit_go.Tests.Files.{plain, ends_apart, no_wait}
use mcp_authkit_go.Tests.Polling.{pending_files, toy_removes}
use mcp_authkit_go.Tests.Toys.{toy_library, toy_host, toy_host-IsHost, toy_aead-IsAead}

-- the marks in front of a text
abbrev count : String → ℕ
count String.[] = 0
count (String.◌∷◌ first others) =
    if String.◌∷◌ first String.[] == "a" then suc (count others) else 0

-- A record becomes as many marks as seconds, and its metadata a fixed subject.
abbrev encode_record : FilePendingRecord (Value ℤ) → Result String
encode_record r = elim r.expires [ pos n ↦ ok (mark n "") | negsuc n ↦ err (message "early") ]

abbrev pub count_records : RecordJson (Value ℤ)
count_records = record {
  marshal = encode_record;
  unmarshal = λ s. ok (record { metadata = entry_for "u"; expires = pos (count s) });
}

count-mark : (n : ℕ) → count (mark n "") ≡ n
count-mark zero = refl
count-mark (suc n) = ap suc (count-mark n)

pos_or_negsuc : (e : ℤ) → ((n : ℕ) × (e ≡ pos n)) ⊎ ((n : ℕ) × (e ≡ negsuc n))
pos_or_negsuc (pos n) = inl (n, refl)
pos_or_negsuc (negsuc n) = inr (n, refl)

count_records-IsRecordJson : IsRecordJson count_records (λ m. entry_for "u")
count_records-IsRecordJson = record { unmarshal-marshal = back }
  where
    back :
        (r : FilePendingRecord (Value ℤ)) (text : String)
        → encode_record r ≡ ok text
        → count_records.unmarshal text ≡ ok (record r { metadata = entry_for "u" })
    back r text e = elim (pos_or_negsuc r.expires) [
      | inl (n, is) ↦ ground (arith, count-mark n)
      | inr (n, is) ↦ absurd (ground arith)
    ]

-- A map of one record becomes the count of its marks.
abbrev encode_map : GoMap (Value ℤ) → Result Bytes
encode_map (some ((k, str raw) ∷ [])) =
    if k == "record"
    then if mark (count raw) "" == raw then ok (count raw ∷ []) else err (message "marks")
    else err (message "key")
encode_map _ = err (message "map")

abbrev decode_map : Bytes → Result (GoMap (Value ℤ))
decode_map (n ∷ []) = ok (some (("record", str (mark n "")) ∷ []))
decode_map _ = err (message "bytes")

abbrev pub count_json : Json (GoMap (Value ℤ))
count_json = record { marshal = encode_map; unmarshal = decode_map }

count_json-IsJson : IsJson count_json (λ m. m)
count_json-IsJson = record { unmarshal-marshal = back }
  where
    one :
        (k raw : String) (b : Bytes)
        → encode_map (some ((k, str raw) ∷ [])) ≡ ok b
        → decode_map b ≡ ok (some ((k, str raw) ∷ []))
    one k raw b e = elim (Bool-cases (k == "record")) [
      | inr other ↦ absurd (ground arith)
      | inl key ↦ elim (Bool-cases (mark (count raw) "" == raw)) [
        | inr other ↦ absurd (ground arith)
        | inl is ↦ ground (arith, eq_iff k "record", eq_iff (mark (count raw) "") raw)
      ]
    ]

    back : (v : GoMap (Value ℤ)) (b : Bytes) → encode_map v ≡ ok b → decode_map b ≡ ok v
    back (some ((k, str raw) ∷ [])) b e = one k raw b e
    back _ b e = absurd (ground arith)

plain_kept : KeepsPlain {N = ℤ} (λ m. m)
plain_kept m = (m, refl, λ k v at plain. at, λ k free. free)

toy_host-Stands : Stands toy_host (λ w. 0)
toy_host-Stands = record {
  now_lem = λ w. refl;
  clock-now = λ w. refl;
  clock-random = λ n w. refl;
  clock-read = λ p w. refl;
  clock-remove = λ p w. refl;
  clock-mkdir = λ p w. refl;
  clock-temp = λ p w. refl;
  clock-write = λ p b w. refl;
  clock-close = λ p w. refl;
  clock-rename = λ p q w. refl;
}

pending_apart :
    (a b : String)
    → a ≢ b
    → meta_path toy_library pending_files a ≢ meta_path toy_library pending_files b
unfolding safe_name
pending_apart a b ne e = ne (
    marks_inj a b (
      append_cancel_right (marks (codes a)) (marks (codes b)) ".enc" (
        append_cancel_left "/" (marks (codes a) <> ".enc") (marks (codes b) <> ".enc") (
          append_cancel_left "pending" ("/" <> marks (codes a) <> ".enc")
            ("/" <> marks (codes b) <> ".enc") e))))

file_pending_store-IsPendingStore_example :
    IsPendingStore
      (file_pending_store toy_host toy_library count_json count_records pending_files no_wait)
      Lasts
      (λ m. entry_for "u")
      (entry toy_host toy_library count_json count_records pending_files toy_host-IsHost
        toy_host-Stands)
file_pending_store-IsPendingStore_example =
    file_pending_store-IsPendingStore toy_host toy_library count_json count_records pending_files
      toy_host-IsHost toy_host-Stands toy_aead-IsAead count_json-IsJson plain_kept
      count_records-IsRecordJson no_wait toy_removes
      (λ k. plain (safe_name toy_library k <> ".enc"))
      (λ k. plain (safe_name toy_library k <> ".done.enc")) ends_apart pending_apart

abbrev no_files : Files
no_files p = none

made :
    (create toy_host toy_library count_json count_records pending_files "k"
      (entry_for "u")
      (pos 1)
      no_files).0
    ≡ ok tt
unfolding create mcp_authkit_go.Base.Int.◌+ℤ◌ mcp_authkit_go.Store.Memory.duration_seconds
    mcp_authkit_go.Base.Int.wrap_64 mcp_authkit_go.Base.Int.◌*ℤ◌
    mcp_authkit_go.Store.Encryption.encrypt mcp_authkit_go.Store.File.atomic_write_file
    mcp_authkit_go.Store.File.fill_and_rename
made = refl

-- An entry that lives for a second, at the time of its creation.
abbrev held : Files
held =
    (create toy_host toy_library count_json count_records pending_files "k" (entry_for "u") (pos 1)
      no_files).1

file_create-lifetime_example :
    (0 ≤ 0 + 1 * 1_000_000_000
      → ((get toy_host toy_library count_json count_records pending_files "k" held).0
          ≡ ok (entry_for "u"))
        × ((pop toy_host toy_library count_json count_records pending_files "k" held).0
            ≡ ok (entry_for "u")))
    × (0 + (1 + 1) * 1_000_000_000 ≤ 0
        → ((get toy_host toy_library count_json count_records pending_files "k" held).0 ≡ ok none)
          × ((pop toy_host toy_library count_json count_records pending_files "k" held).0
              ≡ ok none))
file_create-lifetime_example =
    file_create-lifetime toy_host toy_library count_json count_records pending_files toy_host-IsHost
      toy_host-Stands toy_aead-IsAead count_json-IsJson plain_kept count_records-IsRecordJson "k"
      (entry_for "u") 1 no_files held (plain (safe_name toy_library "k" <> ".enc")) (omega arith)
      made refl

answered :
    (set_result toy_host toy_library count_json count_records pending_files "k"
      (entry_for "u")
      (pos 1)
      no_files).0
    ≡ ok tt
unfolding set_result mcp_authkit_go.Base.Int.◌+ℤ◌ mcp_authkit_go.Store.Memory.duration_seconds
    mcp_authkit_go.Base.Int.wrap_64 mcp_authkit_go.Base.Int.◌*ℤ◌
    mcp_authkit_go.Store.Encryption.encrypt mcp_authkit_go.Store.File.atomic_write_file
    mcp_authkit_go.Store.File.fill_and_rename
answered = refl

abbrev holding : Files
holding =
    (set_result toy_host toy_library count_json count_records pending_files "k" (entry_for "u")
      (pos 1) no_files).1

abbrev pauses : ℤ → Action Files Pause
pauses n w = (elapsed, w)

file_set_result-wait_for_result_example :
    ((wait_for_result toy_host toy_library count_json count_records pending_files 3 pauses "k"
        (pos 5)
        holding).0
      ≡ some (ok (entry_for "u")))
    × ((wait_for_result toy_host toy_library count_json count_records pending_files 3 pauses "k"
            (pos 5)
            holding).1
          (done_path toy_library pending_files "k")
        ≡ none)
file_set_result-wait_for_result_example =
    file_set_result-wait_for_result toy_host toy_library count_json count_records pending_files
      toy_host-IsHost toy_host-Stands toy_removes toy_aead-IsAead count_json-IsJson plain_kept
      count_records-IsRecordJson "k" (entry_for "u") 1 no_files holding
      (plain (safe_name toy_library "k" <> ".done.enc")) (omega arith) answered refl (omega arith) 2
      pauses (pos 5)

abbrev one_second : FilePendingRecord (Value ℤ)
one_second = record { metadata = entry_for "u"; expires = pos 1 }

pops_race_example :
    ((pop_twice toy_host toy_library count_json count_records pending_files "k" held).0
      ≡ (ok (entry_for "u"), ok (entry_for "u")))
    × (pop toy_host toy_library count_json count_records pending_files "k" held
        ≡ pop_remove toy_host toy_library count_json count_records pending_files "k"
            (pop_read toy_host toy_library count_json count_records pending_files "k" held).0
            (pop_read toy_host toy_library count_json count_records pending_files "k" held).1)
    × (let first = pop toy_host toy_library count_json count_records pending_files "k" held in
        (first.0 ≡ ok (entry_for "u"))
        × ((pop toy_host toy_library count_json count_records pending_files "k" first.1).0
            ≡ ok none))
unfolding create mcp_authkit_go.Base.Int.◌+ℤ◌ mcp_authkit_go.Store.Memory.duration_seconds
    mcp_authkit_go.Base.Int.wrap_64 mcp_authkit_go.Base.Int.◌*ℤ◌
    mcp_authkit_go.Store.Encryption.encrypt mcp_authkit_go.Store.Encryption.decrypt
    mcp_authkit_go.Store.File.atomic_write_file mcp_authkit_go.Store.File.fill_and_rename
    mcp_authkit_go.Value.string_at mcp_authkit_go.Base.Dict.lookup safe_name
pops_race_example =
    pops_race toy_host toy_library count_json count_records pending_files toy_host-IsHost
      toy_host-Stands toy_removes "k" held one_second refl
