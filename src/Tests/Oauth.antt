-- ===== src/Tests/Oauth.antt =====
-- The provider of package oauthprovider at concrete inputs.
use mcp_authkit_go.Base.{String, [], ◌∷◌, ◌≡◌, refl, arith}
use mcp_authkit_go.Base.{◌==◌, if◌then◌else◌}
use mcp_authkit_go.Base.Int.{ℤ, pos}
use mcp_authkit_go.Base.Dict.{Dict, lookup, insert}
use mcp_authkit_go.Base.Action.{Error, ok, err}
use mcp_authkit_go.Value.{Value, str, GoMap, string_at}
use mcp_authkit_go.Store.{TokenStore}
use mcp_authkit_go.Store.Memory.{clone_map, copy_entries}
use mcp_authkit_go.Store.Memory.Tokens.{get}
use mcp_authkit_go.Store.Memory.Pending.{pop}
use mcp_authkit_go.Middleware.{Request}
use mcp_authkit_go.OauthProvider.{refresh, use_token, get_or_refresh_token, handle_callback}
use mcp_authkit_go.OauthProvider.Tokens.{Source, get_or_refresh_token-Source}
use mcp_authkit_go.OauthProvider.Callback.{
  Granted, with_store, stored_at, done_signal, handle_callback_guard,
}
use mcp_authkit_go.Tests.Toys.{toy_float}
use mcp_authkit_go.Tests.World.{World, world_host, start_world, request, answer_of, world_provider}

abbrev asks_back : String → String
asks_back k = if k == "code" then "c" else if k == "state" then "s" else ""

abbrev callback : Request (Value ℤ)
callback = request asks_back (λ k. "")

abbrev pending_u : Dict (Value ℤ)
pending_u = ("sub", str "u") ∷ []

granted : Granted world_host toy_float world_provider callback start_world pending_u answer_of
unfolding pop clone_map copy_entries insert lookup
granted = record {
  no_error = refl;
  has_code = λ e. cc;
  has_state = λ e. cc;
  popped = refl;
  exchanged = refl;
}

handle_callback_guard_example :
    ((pending : Dict (Value ℤ)) (raw : GoMap (Value ℤ))
      → Granted world_host toy_float world_provider callback start_world pending raw
      → let stored =
          stored_at world_host toy_float world_provider callback start_world pending raw in
        let answer = handle_callback world_host toy_float world_provider callback start_world in
        (stored.0 ≡ ok tt
          → (answer.0.status ≡ 200)
            × (answer.1
                ≡ (world_provider.pending_store.set_result "s"
                    (done_signal world_host toy_float world_provider pending)
                    (pos 120)
                    stored.1).1))
        × ((e : Error) → stored.0 ≡ err e → (answer.0.status ≡ 500) × (answer.1 ≡ stored.1)))
    × (((pending : Dict (Value ℤ)) (raw : GoMap (Value ℤ))
          → ¬ Granted world_host toy_float world_provider callback start_world pending raw)
        → (store : TokenStore World (Value ℤ))
        → handle_callback world_host toy_float world_provider callback start_world
          ≡ handle_callback world_host toy_float
              (with_store world_host toy_float world_provider store)
              callback
              start_world)
handle_callback_guard_example =
    handle_callback_guard world_host toy_float world_provider callback start_world

apart :
    (k sub : String) (m : GoMap (Value ℤ)) (ttl : ℤ) (w : World)
    → (get_or_refresh_token world_host toy_float world_provider sub
        (world_provider.pending_store.set_result k m ttl w).1).0
      ≡ (get_or_refresh_token world_host toy_float world_provider sub w).0
unfolding get_or_refresh_token use_token refresh
apart k sub m ttl w = ground arith

get_or_refresh_token-Source_example :
    Source world_host toy_float world_provider "u"
      (record start_world { tokens = record { content = ("u", answer_of) ∷ [] } })
      "t"
unfolding get_or_refresh_token use_token refresh get lookup string_at clone_map copy_entries insert
get_or_refresh_token-Source_example =
    get_or_refresh_token-Source world_host toy_float world_provider "u"
      (record start_world { tokens = record { content = ("u", answer_of) ∷ [] } }) "t" (λ e. cc)
      refl
