-- ===== src/Tests/Waited.antt =====
-- The blocking flow of package credentialsprovider over Redis, at a server that is a function.
use mcp_authkit_go.Base.{zero, suc, String, none, some, [], ◌∷◌, true, false}
use mcp_authkit_go.Base.{◌==◌, if◌then◌else◌}
use mcp_authkit_go.Base.Dict.{Dict}
use mcp_authkit_go.Base.Int.{ℤ}
use mcp_authkit_go.Base.Action.{Action, ElicitParams, Result, ok}
use mcp_authkit_go.Value.{Value, string_at}
use mcp_authkit_go.Store.File.Pending.{Pause, elapsed}
use mcp_authkit_go.Store.Redis.{Content}
use mcp_authkit_go.OauthProvider.Gate.{Running}
use mcp_authkit_go.CredentialsProvider.{Provider, handle_submit}
use mcp_authkit_go.CredentialsProvider.Gate.{Tool}
use mcp_authkit_go.CredentialsProvider.Gate.Flow.{created}
use mcp_authkit_go.CredentialsProvider.OnRedis.Flow.{provider_on_redis}
use mcp_authkit_go.Tests.OnRedis.{redis_tokens, redis_pendings, base}
use mcp_authkit_go.Tests.Replicas.{value_json, no_keys, form}
use mcp_authkit_go.Tests.Toys.{toy_float, toy_library, toy_client, toy_redis_host}

abbrev pauses : ℤ → Action Content Pause
pauses n w = (elapsed, w)

abbrev here : Provider Content ℤ
here =
    provider_on_redis toy_redis_host toy_client toy_library value_json redis_tokens redis_pendings
      toy_float 3 pauses base

-- the form comes first, and then the user's answer
abbrev browses : Unit {0} → ElicitParams → Action Content (Result String)
browses session ask w = (ok "accept", (handle_submit toy_library here form w).1)

abbrev at_form : Content
at_form = (created toy_redis_host toy_library toy_float here browses "u" no_keys).1

abbrev running : Running Content (Unit {0})
running = record { sessions = []; world = no_keys }

abbrev tell_key : Tool toy_redis_host toy_library toy_float here browses
tell_key ctx s = (
  ok (record {
    text = elim ctx.credentials [
      | none ↦ "missing"
      | some none ↦ "nil"
      | some (some creds) ↦ string_at "key" creds
    ];
    is_error = false;
  }),
  s,
)
