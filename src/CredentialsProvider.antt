-- ===== src/CredentialsProvider.antt =====
-- credentialsprovider/credentialsprovider.go: the provider and the submission of its form.
-- The world `W` is that of package oauthprovider's model.
pub mod Form
pub mod Gate
pub mod Submit
pub mod Deliver
pub mod OnRedis
pub mod Pages
pub mod Subject
pub mod Order
use mcp_authkit_go.Base.{
  ℕ, zero, String, Bool, true, false, not, ◌||◌, ◌&&◌, Option, none, some, List, [], ◌∷◌,
}
use mcp_authkit_go.Base.{◌==◌, ◌<>◌, ◌⊎◌, inl, inr, if◌then◌else◌}
use mcp_authkit_go.Base.Int.{ℤ, pos, ◌*ℤ◌}
use mcp_authkit_go.Base.Dict.{Dict, insert}
use mcp_authkit_go.Base.Action.{Action, Error, wrapped, Result, ok, err, pure, ◌>>=◌, ◌>>◌}
use mcp_authkit_go.Host.{Host, Library, zeros}
use mcp_authkit_go.Http.{Response}
use mcp_authkit_go.Value.{Float64, Value, str, bool, GoMap, string_at}
use mcp_authkit_go.Store.{TokenStore, PendingStore}
use mcp_authkit_go.Middleware.{Request}
pub use mcp_authkit_go.CredentialsProvider.Form.{
  FieldType, text, password, url, textarea, unlisted, Variable, required_attr, input_type,
  write_input,
}
unfoldable pub use mcp_authkit_go.CredentialsProvider.Form.{
  new_variable, write_status_page, write_fields, write_entry_form,
}

pub record Options (W N : Type 0) : Type 0 where
  pub name : String
  -- in the order in which `range` yields them in this run
  pub variables : Dict Variable
  pub server_base_url : String
  pub creds_store : Option (TokenStore W (Value N))
  pub pending_store : Option (PendingStore W N (Value N))
  pub doc : String
  -- nanoseconds
  pub token_timeout : ℤ

pub record Provider (W N : Type 0) : Type 0 where
  pub name : String
  pub variables : Dict Variable
  pub server_base_url : String
  pub creds_store : TokenStore W (Value N)
  pub pending_store : PendingStore W N (Value N)
  pub doc : String
  pub token_timeout : ℤ
  pub entry_path : String
  pub submit_path : String

-- The error of rand.Read is dropped, and the buffer is as it was made.
unfoldable pub generate_id : {W : Type 0} → Host W → Library → ℕ → Action W String
generate_id host lib byte_len = do
  drawn ← host.random byte_len
  pure (lib.hex (elim drawn [ ok b ↦ b | err _ ↦ zeros byte_len ]))

abbrev is_zero : ℤ → Bool
is_zero (pos zero) = true
is_zero _ = false

abbrev or_else : {A : Type 0} → Option A → A → A
or_else none a = a
or_else (some b) a = b

module _ {W N : Type 0} where
  abbrev build : Options W N → TokenStore W (Value N) → PendingStore W N (Value N) → Provider W N
  build opts creds_store pending_store = record {
    name = opts.name;
    variables = opts.variables;
    server_base_url = opts.server_base_url;
    creds_store = creds_store;
    pending_store = pending_store;
    doc = opts.doc;
    token_timeout =
        if is_zero opts.token_timeout then pos 300 *ℤ pos 1000000000 else opts.token_timeout;
    entry_path = "/credentials/" <> opts.name <> "/entry";
    submit_path = "/credentials/" <> opts.name <> "/submit";
  }

  -- `create_stores` is store.CreateStores of the namespace.
  abbrev new_default :
      (String → Action W (Result (TokenStore W (Value N) × PendingStore W N (Value N))))
      → Options W N
      → Action W (Result (Provider W N))
  new_default create_stores opts = do
    created ← create_stores opts.name
    pure (elim created [
      | err e ↦ err (wrapped "credentialsprovider: creating default stores" e)
      | ok (ts, ps) ↦ ok (build opts (or_else opts.creds_store ts) (or_else opts.pending_store ps))
    ])

  unfoldable pub new :
      (String → Action W (Result (TokenStore W (Value N) × PendingStore W N (Value N))))
      → Options W N
      → Action W (Result (Provider W N))
  new create_stores opts = elim opts.creds_store [
    | none ↦ new_default create_stores opts
    | some creds_store ↦ elim opts.pending_store [
      | none ↦ new_default create_stores opts
      | some pending_store ↦ pure (ok (build opts creds_store pending_store))
    ]
  ]

  unfoldable pub open_paths : Provider W N → List String
  open_paths p = p.entry_path ∷ p.submit_path ∷ []

  unfoldable pub invalidate_credentials : Provider W N → String → Action W (Result (Unit {0}))
  invalidate_credentials p sub = p.creds_store.delete sub

module _ (lib : Library) where
  -- The loop of `HandleSubmit`: the collected form, or the label of a required field that is blank.
  unfoldable pub collect :
      {N : Type 0} → (String → String) → Dict Variable → Dict (Value N) → String ⊎ Dict (Value N)
  collect form [] collected = inr collected
  collect form ((name, v) ∷ variables) collected =
      let value = form name in
      let rest = collect form variables (insert name (str value) collected) in
      if v.required && lib.trim_space value == "" then inl v.label else rest

  module _ {W N : Type 0} (p : Provider W N) where
    unfoldable pub handle_entry : Request (Value N) → Action W (Response String)
    unfolding write_status_page write_entry_form
    handle_entry r =
        let entry_token = r.query "t" in
        let expired =
          write_status_page lib 400 "Error"
            "This link has expired or is invalid — please retry from your MCP client." in
        if entry_token == ""
        then pure (write_status_page lib 400 "Error" "Missing entry token")
        else (do
          pending ← p.pending_store.get entry_token
          pure (elim pending [
            | err _ ↦ expired
            | ok none ↦ expired
            | ok (some _) ↦
                write_entry_form lib p.name (p.submit_path <> "?t=" <> lib.escape_query entry_token)
                  p.variables p.doc
          ]))

    -- `HandleSubmit` from the storing on
    unfoldable pub save : String → String → Dict (Value N) → Action W (Response String)
    unfolding write_status_page
    save entry_token sub collected = do
      stored ← p.creds_store.set sub (some collected)
      elim stored [
        | err _ ↦ pure (write_status_page lib 500 "Error" "Storing credentials failed")
        | ok _ ↦ do
          p.pending_store.set_result entry_token
              (some (("sub", str sub) ∷ ("_elicit_sent", bool false) ∷ [])) (pos 120)
          pure (
              write_status_page lib 200 "Success" (
                "Your " <> p.name
                <> " credentials were saved. Your credentials are stored securely on the MCP server and are never exposed to the AI assistant. You can close this window and return to your MCP client."))
      ]

    -- `HandleSubmit` with the pending entry that was popped
    unfoldable pub accept_form :
        Request (Value N) → String → Dict (Value N) → Action W (Response String)
    unfolding save collect
    accept_form r entry_token pending = elim r.form_error [
      | err _ ↦ pure (write_status_page lib 400 "Error" "Invalid form submission")
      | ok _ ↦ elim (collect r.form p.variables []) [
        | inl label ↦
            pure (write_status_page lib 400 "Error" ("Field " <> lib.quote label <> " is required"))
        | inr collected ↦ save entry_token (string_at "sub" pending) collected
      ]
    ]

    unfoldable pub handle_submit : Request (Value N) → Action W (Response String)
    unfolding accept_form
    handle_submit r =
        let entry_token = r.query "t" in
        let used =
          write_status_page lib 400 "Error"
            "This link has expired, is invalid, or was already used." in
        if entry_token == ""
        then pure (write_status_page lib 400 "Error" "Missing entry token")
        else (do
          popped ← p.pending_store.pop entry_token
          elim popped [
            | err _ ↦ pure used
            | ok none ↦ pure used
            | ok (some pending) ↦ accept_form r entry_token pending
          ])
