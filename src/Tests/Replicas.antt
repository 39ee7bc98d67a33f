-- ===== src/Tests/Replicas.antt =====
-- The fail-fast flow of package credentialsprovider over Redis, at a server that is a function.
use package.text.Mathlib.TextLemmas.{append_cancel_left}
use mcp_authkit_go.Base.{
  zero, suc, String, none, some, List, [], ◌∷◌, ◌≡◌, ◌≢◌, refl, arith, eq_iff, true, false, inl,
  inr,
}
use mcp_authkit_go.Base.{◌==◌, ◌&&◌, ◌<>◌, if◌then◌else◌, Bool-cases}
use mcp_authkit_go.Base.Dict.{Dict, lookup}
use mcp_authkit_go.Base.Int.{ℤ, pos}
use mcp_authkit_go.Base.Action.{
  Action, ElicitParams, elicitation_required, message, Result, ok, err,
}
use mcp_authkit_go.Host.{Bytes, Json, IsJson}
use mcp_authkit_go.Value.{KeepsPlain, Value, str, bool, GoMap, string_at}
use mcp_authkit_go.Store.File.{safe_name}
use mcp_authkit_go.Store.Redis.{redis_token_key, Content}
use mcp_authkit_go.Store.Trace.{Call}
use mcp_authkit_go.Middleware.{Request, user_from_context}
use mcp_authkit_go.OauthProvider.Gate.{Running}
use mcp_authkit_go.CredentialsProvider.{generate_id, Provider, Variable}
use mcp_authkit_go.CredentialsProvider.Submit.{is_blank, collected_at}
use mcp_authkit_go.CredentialsProvider.Gate.{Tool, prompt, with_credentials, require_credentials}
use mcp_authkit_go.CredentialsProvider.Gate.Flow.{drawn, created}
use mcp_authkit_go.CredentialsProvider.OnRedis.{on_redis}
use mcp_authkit_go.CredentialsProvider.OnRedis.Retry.{
  ReturnHere, answered_here, require_credentials_retry_on_redis,
}
use mcp_authkit_go.Tests.Names.{codes, marks, marks_inj}
use mcp_authkit_go.Tests.OnRedis.{
  redis_tokens, redis_pendings, no_wait, base, set_local, pending_apart, colonless,
}
use mcp_authkit_go.Tests.Toys.{
  toy_float, toy_library, toy_aead-IsAead, toy_random, toy_client, toy_client-IsClient,
  toy_redis_host,
}
use mcp_authkit_go.Tests.World.{as_u, user_u, nobody}

abbrev pub entry_u : Dict (Value ℤ)
entry_u = ("sub", str "u") ∷ []

abbrev pub typed : Dict (Value ℤ)
typed = ("key", str "x") ∷ []

abbrev signal_u : Dict (Value ℤ)
signal_u = ("sub", str "u") ∷ ("_elicit_sent", bool false) ∷ []

-- A JSON for three values, the entry of a call, a form and the signal that it was stored.
abbrev encode_field : String → String → Result Bytes
encode_field k v =
    if k == "sub" && v == "u"
    then ok (0 ∷ [])
    else if k == "key" && v == "x"
    then ok (1 ∷ [])
    else err (message "value")

abbrev encode_signal : String → String → String → Result Bytes
encode_signal k v j =
    if k == "sub" && v == "u" && j == "_elicit_sent" then ok (2 ∷ []) else err (message "value")

abbrev encode_value : GoMap (Value ℤ) → Result Bytes
encode_value (some ((k, str v) ∷ [])) = encode_field k v
encode_value (some ((k, str v) ∷ (j, bool false) ∷ [])) = encode_signal k v j
encode_value _ = err (message "value")

abbrev decode_value : Bytes → Result (GoMap (Value ℤ))
decode_value (zero ∷ []) = ok (some entry_u)
decode_value (suc zero ∷ []) = ok (some typed)
decode_value (suc (suc zero) ∷ []) = ok (some signal_u)
decode_value _ = err (message "value")

abbrev pub value_json : Json (GoMap (Value ℤ))
value_json = record { marshal = encode_value; unmarshal = decode_value }

pub value_json-IsJson : IsJson value_json (λ m. m)
value_json-IsJson = record { unmarshal-marshal = back }
  where
    one :
        (k v : String) (b : Bytes)
        → encode_field k v ≡ ok b
        → decode_value b ≡ ok (some ((k, str v) ∷ []))
    one k v b e = elim (Bool-cases (k == "sub" && v == "u")) [
      | inl first ↦ ground (arith, eq_iff k "sub", eq_iff v "u")
      | inr other ↦ elim (Bool-cases (k == "key" && v == "x")) [
        | inl second ↦ ground (arith, eq_iff k "key", eq_iff v "x")
        | inr none_left ↦ absurd (ground arith)
      ]
    ]

    two :
        (k v j : String) (b : Bytes)
        → encode_signal k v j ≡ ok b
        → decode_value b ≡ ok (some ((k, str v) ∷ (j, bool false) ∷ []))
    two k v j b e = elim (Bool-cases (k == "sub" && v == "u" && j == "_elicit_sent")) [
      | inl is ↦ ground (arith, eq_iff k "sub", eq_iff v "u", eq_iff j "_elicit_sent")
      | inr other ↦ absurd (ground arith)
    ]

    back : (v : GoMap (Value ℤ)) (b : Bytes) → encode_value v ≡ ok b → decode_value b ≡ ok v
    back (some ((k, str v) ∷ [])) b e = one k v b e
    back (some ((k, str v) ∷ (j, bool false) ∷ [])) b e = two k v j b e
    back _ b e = absurd (ground arith)

pub plain_kept : KeepsPlain {N = ℤ} (λ m. m)
plain_kept m = (m, refl, λ k v at plain. at, λ k free. free)

pub tokens_apart :
    (a b : String)
    → a ≢ b
    → redis_token_key toy_library redis_tokens.prefix a
      ≢ redis_token_key toy_library redis_tokens.prefix b
unfolding safe_name redis_token_key
tokens_apart a b ne e = ne (
    marks_inj a b (
      append_cancel_left "token:" (marks (codes a)) (marks (codes b)) (
        append_cancel_left "p:git:" ("token:" <> marks (codes a)) ("token:" <> marks (codes b)) e)))

abbrev here : Provider Content ℤ
here =
    on_redis toy_redis_host toy_client toy_library value_json redis_tokens redis_pendings no_wait
      base

abbrev pub no_keys : Content
no_keys k = none

abbrev token_of_call : String
token_of_call = (generate_id toy_redis_host toy_library 32 no_keys).0

abbrev pub form : Request (Value ℤ)
form = record {
  method = "POST";
  path = "/";
  header = λ k. "";
  query = λ k. if k == "t" then token_of_call else "";
  form = λ k. if k == "key" then "x" else "";
  form_error = ok tt;
  context = nobody;
}

abbrev accepts : Unit {0} → ElicitParams → Action Content (Result String)
accepts session ask w = (ok "accept", w)

-- another call's entry comes and goes
abbrev others : List (Call Content (Value ℤ))
others = Call.create "o" (some entry_u) (pos 5) ∷ Call.pop "o" ∷ []

returned :
    ReturnHere toy_redis_host toy_client toy_library value_json redis_tokens redis_pendings no_wait
      base toy_client-IsClient set_local
      (λ n w. refl)
      colonless
      toy_aead-IsAead
      toy_aead-IsAead
      value_json-IsJson
      plain_kept
      toy_random
      tokens_apart
      pending_apart
      toy_float
      accepts
      "u"
      no_keys
      others
      form
      entry_u
      typed
unfolding mcp_authkit_go.Store.Redis.Pending.create mcp_authkit_go.Store.Encryption.encrypt
    mcp_authkit_go.Store.Trace.made generate_id mcp_authkit_go.Store.Redis.Pending.pop
    mcp_authkit_go.Store.Trace.run mcp_authkit_go.Store.Redis.redis_pending_key safe_name
    mcp_authkit_go.Store.Encryption.decrypt mcp_authkit_go.CredentialsProvider.collect
    mcp_authkit_go.Base.Dict.insert mcp_authkit_go.Store.Redis.Tokens.set
returned = record {
  listed = refl;
  succeed = (refl, (tt, tt));
  fresh = refl;
  own_token = refl;
  granted = record { has_token = λ e. cc; popped = refl; parsed = refl; complete = refl };
  put = refl;
}

abbrev running : Running Content (Unit {0})
running = record { sessions = []; world = no_keys }

-- the state of the second call: right after the form
abbrev later_on : Running Content (Unit {0})
later_on = record {
  sessions = [];
  world =
      answered_here toy_redis_host toy_client toy_library value_json redis_tokens redis_pendings
        no_wait base toy_client-IsClient set_local (λ n w. refl) colonless toy_aead-IsAead
        toy_aead-IsAead value_json-IsJson plain_kept toy_random tokens_apart pending_apart toy_float
        accepts "u" others no_keys form;
}

abbrev pub tell_key : Tool toy_redis_host toy_library toy_float here accepts
tell_key ctx s = (
  ok (record {
    text = elim ctx.credentials [
      | none ↦ "missing"
      | some none ↦ "nil"
      | some (some creds) ↦ string_at "key" creds
    ];
    is_error = false;
  }),
  s,
)

require_credentials_retry_on_redis_example :
    (require_credentials toy_redis_host toy_library toy_float here accepts true tt tell_key as_u
        running
      ≡ (
        err (
            elicitation_required (
              prompt toy_redis_host toy_library toy_float here accepts token_of_call
                (drawn toy_redis_host toy_library toy_float here accepts "u" no_keys).0
              ∷ [])),
        record running {
          world = (created toy_redis_host toy_library toy_float here accepts "u" no_keys).1;
        },
      ))
    × ((filled : Dict (Value ℤ)) × ((k : String)
          → (lookup k filled ≡ collected_at toy_library form.form here.variables [] k)
            × ((x : Variable)
                → lookup k here.variables ≡ some x
                → is_blank toy_library form.form k x ≡ false))
        × (require_credentials toy_redis_host toy_library toy_float here accepts true tt tell_key
              as_u later_on
            ≡ tell_key
                (with_credentials as_u filled)
                (record later_on { world = (here.creds_store.get "u" later_on.world).1 })))
unfolding user_from_context mcp_authkit_go.Store.Redis.Tokens.get
require_credentials_retry_on_redis_example =
    require_credentials_retry_on_redis toy_redis_host toy_client toy_library value_json redis_tokens
      redis_pendings no_wait base toy_client-IsClient set_local (λ n w. refl) colonless
      toy_aead-IsAead toy_aead-IsAead value_json-IsJson plain_kept toy_random tokens_apart
      pending_apart toy_float accepts tt tt tell_key as_u user_u "u" others no_keys form entry_u
      typed running later_on returned refl refl refl refl
