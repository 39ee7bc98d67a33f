-- ===== src/Tests/Credentials.antt =====
-- The provider of package credentialsprovider at concrete inputs.
use mcp_authkit_go.Base.{String, true, false, some, [], ◌∷◌, ◌≡◌}
use mcp_authkit_go.Base.{◌==◌, if◌then◌else◌}
use mcp_authkit_go.Base.Int.{ℤ, pos}
use mcp_authkit_go.Base.Dict.{Dict, lookup}
use mcp_authkit_go.Base.Action.{Error, ok, err}
use mcp_authkit_go.Value.{Value, string_at}
use mcp_authkit_go.Store.{TokenStore}
use mcp_authkit_go.Middleware.{Request}
use mcp_authkit_go.CredentialsProvider.{Provider, Variable, text, save, handle_submit}
use mcp_authkit_go.CredentialsProvider.Submit.{
  Granted, with_store, is_blank, collected_at, handle_submit_guard,
}
use mcp_authkit_go.Tests.Toys.{toy_library}
use mcp_authkit_go.Tests.World.{World, world_tokens, world_pending, start_world, request}

abbrev pub form_provider : Provider World ℤ
form_provider = record {
  name = "git";
  variables = ("key", record { label = "Key"; type = text; hint = ""; required = true }) ∷ [];
  server_base_url = "https://here";
  creds_store = world_tokens;
  pending_store = world_pending;
  doc = "";
  token_timeout = pos 300_000_000_000;
  entry_path = "/credentials/git/entry";
  submit_path = "/credentials/git/submit";
}

abbrev submission : String → Request (Value ℤ)
submission key = request (λ k. if k == "t" then "s" else "") (λ k. if k == "key" then key else "")

handle_submit_guard_example :
    ((pending collected : Dict (Value ℤ))
      → Granted toy_library form_provider (submission "x") start_world pending collected
      → let sub = string_at "sub" pending in
        let w' = (form_provider.pending_store.pop "s" start_world).1 in
        let answer = handle_submit toy_library form_provider (submission "x") start_world in
        (answer ≡ save toy_library form_provider "s" sub collected w')
        × ((k : String)
            → (lookup k collected
                ≡ collected_at toy_library (submission "x").form form_provider.variables [] k)
              × ((v : Variable)
                  → lookup k form_provider.variables ≡ some v
                  → is_blank toy_library (submission "x").form k v ≡ false))
        × ((form_provider.creds_store.set sub (some collected) w').0 ≡ ok tt
            → answer.0.status ≡ 200)
        × ((e : Error)
            → (form_provider.creds_store.set sub (some collected) w').0 ≡ err e
            → answer.0.status ≡ 500))
    × (((pending collected : Dict (Value ℤ))
          → ¬ Granted toy_library form_provider (submission "x") start_world pending collected)
        → ((handle_submit toy_library form_provider (submission "x") start_world).0.status ≡ 400)
          × ((store : TokenStore World (Value ℤ))
              → handle_submit toy_library form_provider (submission "x") start_world
                ≡ handle_submit toy_library
                    (with_store toy_library form_provider store)
                    (submission "x")
                    start_world))
handle_submit_guard_example =
    handle_submit_guard toy_library form_provider (submission "x") start_world
