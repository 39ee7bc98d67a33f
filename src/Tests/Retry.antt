-- ===== src/Tests/Retry.antt =====
-- The fail-fast flows, and the flow of package credentialsprovider, at a world of the two memory
-- stores.
use mcp_authkit_go.Base.{String, List, none, some, true, false, [], ◌∷◌, ◌≡◌, refl}
use mcp_authkit_go.Base.{◌==◌, ◌<>◌, if◌then◌else◌}
use mcp_authkit_go.Base.Dict.{lookup, insert, remove}
use mcp_authkit_go.Base.Int.{ℤ, pos, ◌+ℤ◌, wrap_64, ◌*ℤ◌}
use mcp_authkit_go.Base.Action.{elicitation_required, ok, err}
use mcp_authkit_go.Value.{Value, str, string_at}
use mcp_authkit_go.Store.Memory.{duration_seconds, clone_map, copy_entries}
use mcp_authkit_go.Store.Memory.Tokens.{get, set}
use mcp_authkit_go.Store.Memory.Pending.{
  create, pop, set_result, find_or_make, fire, wait_begin, wait_receive, wait_consume,
}
use mcp_authkit_go.Store.Trace.{Call, run, run_call, made}
use mcp_authkit_go.Middleware.{Request, user_from_context}
use mcp_authkit_go.OauthProvider.{
  generate_id, accept_code, exchange, normalize_token_data, to_float, refresh, use_token,
  get_or_refresh_token, handle_callback,
}
use mcp_authkit_go.OauthProvider.Gate
use mcp_authkit_go.OauthProvider.Gate.{Running, with_token, require_token}
use mcp_authkit_go.OauthProvider.Gate.Flow.{drawn, created}
use mcp_authkit_go.OauthProvider.Gate.Retry.{Return, answered, require_token_retry}
use mcp_authkit_go.Tests.Flow.{world_pending-IsPendingStore, still, lasts}
use mcp_authkit_go.Tests.Toys.{toy_float, toy_library}
use mcp_authkit_go.Tests.World.{
  World, world_host, world_tokens-IsTokenStore, plain_twice, start_world, as_u, user_u, request,
  answer_of, world_provider, accepts,
}

abbrev state_of_call : String
state_of_call = (generate_id world_host toy_library 24 start_world).0

abbrev asks : String → String
asks k = if k == "code" then "c" else if k == "state" then state_of_call else ""

abbrev callback : Request (Value ℤ)
callback = request asks (λ k. "")

-- another user's entry comes and goes
abbrev others : List (Call World (Value ℤ))
others = Call.create "o" (some (("sub", str "other") ∷ [])) (pos 5) ∷ Call.pop "o" ∷ []

returned :
    Return world_host toy_library toy_float world_provider accepts world_tokens-IsTokenStore
      plain_twice world_pending-IsPendingStore plain_twice lasts "u" start_world others callback
      answer_of "t"
      (pos 100)
      (("sub", str "u") ∷ [])
unfolding pop clone_map copy_entries insert lookup create set get set_result find_or_make fire ◌+ℤ◌
    string_at to_float duration_seconds wrap_64 ◌*ℤ◌ generate_id handle_callback wait_begin
    wait_receive wait_consume accept_code exchange normalize_token_data run run_call made remove
returned = record {
  listed = refl;
  succeed = (refl, (tt, tt));
  fresh = refl;
  own_state = refl;
  granted = record {
    no_error = refl;
    has_code = λ e. cc;
    has_state = λ e. cc;
    popped = refl;
    exchanged = refl;
  };
  access = refl;
  until = refl;
  put = refl;
  current = refl;
}

abbrev running : Running World (Unit {0})
running = record { sessions = []; world = start_world }

-- the state of the second call: right after the callback
abbrev later_on : Running World (Unit {0})
later_on = record {
  sessions = [];
  world =
      answered world_host toy_library toy_float world_provider accepts world_tokens-IsTokenStore
        plain_twice world_pending-IsPendingStore plain_twice lasts "u" others start_world callback;
}

abbrev tell_token : Gate.Tool world_host toy_library toy_float world_provider accepts
tell_token ctx s =
    (ok (record { text = elim ctx.token [ none ↦ "" | some t ↦ t ]; is_error = false }), s)

require_token_retry_example :
    (require_token world_host toy_library toy_float world_provider accepts true tt tell_token as_u
        running
      ≡ (
        err (
            elicitation_required (
              Gate.prompt world_host toy_library toy_float world_provider accepts
                ("https://auth/?state=" <> state_of_call)
                (drawn world_host toy_library toy_float world_provider accepts "u" start_world).0
              ∷ [])),
        record running {
          world =
              (created world_host toy_library toy_float world_provider accepts "u" start_world).1;
        },
      ))
    × (require_token world_host toy_library toy_float world_provider accepts true tt tell_token as_u
          later_on
        ≡ tell_token (with_token as_u "t") (record later_on {
          world = (get_or_refresh_token world_host toy_float world_provider "u" later_on.world).1;
        }))
unfolding get_or_refresh_token use_token refresh get lookup user_from_context
require_token_retry_example =
    require_token_retry world_host toy_library toy_float world_provider accepts
      world_tokens-IsTokenStore plain_twice world_pending-IsPendingStore plain_twice lasts returned
      still tt tt tell_token as_u user_u running later_on refl refl refl (λ e. cc) refl
