-- ===== src/Tests/Routes.antt =====
-- The discovery routes behind the middleware, at concrete requests.
use mcp_authkit_go.Base.{String, none, some, [], ◌∷◌, ◌≡◌, refl, arith}
use mcp_authkit_go.Base.{◌<>◌, ◌==◌, if◌then◌else◌, inr}
use mcp_authkit_go.Base.Int.{ℤ}
use mcp_authkit_go.Base.Dict.{Dict, lookup}
use mcp_authkit_go.Base.Action.{Action, Result, message, ok, err}
use mcp_authkit_go.Http.{HttpClient}
use mcp_authkit_go.Value.{Value, str, strings}
use mcp_authkit_go.JwtValidator.{FailReason, invalid}
use mcp_authkit_go.Middleware.{
  Options, Request, Handler, is_open_path, extract_bearer_token, trim_prefix, drop_text,
}
use mcp_authkit_go.Middleware.Routes.{WellKnownOptions, OidcDiscoveryDoc, write_json}
use mcp_authkit_go.Middleware.Routes.Reachable.{encoded, gate, discovery_reachable}
use mcp_authkit_go.Tests.Toys.{toy_library}
use mcp_authkit_go.Tests.World.{World, world_host, start_world, nobody}

abbrev offline : HttpClient World
offline = record {
  new_request = λ m u b. err (message "offline");
  send = λ r w. (err (message "offline"), w);
}

abbrev no_doc : String → Result OidcDiscoveryDoc
no_doc s = err (message "no document")

abbrev no_token : String → String → Action World (FailReason × Result (Dict (Value ℤ)))
no_token token url w = ((invalid, err (message "invalid")), w)

abbrev no_text : Dict (Value ℤ) → String
no_text doc = "{}"

-- a mux that knows the patterns without wildcards
abbrev serve : Dict (Handler World (Value ℤ) (Dict (Value ℤ))) → Handler World (Value ℤ) String
serve routes r w = elim (lookup (r.method <> " " <> r.path) routes) [
  | none ↦ (record { status = 404; headers = []; body = "" }, w)
  | some handler ↦ (encoded no_text (handler r w).0, (handler r w).1)
]

abbrev here : WellKnownOptions
here = record { server_base_url = "https://here"; issuer_url = "https://idp"; client_id = "c" }

abbrev open_options : Options
open_options = record {
  issuer_url = "https://idp";
  server_base_url = "https://here";
  open_paths = "/.well-known" ∷ "/health" ∷ "/register" ∷ [];
}

abbrev ask : String → String → Request (Value ℤ)
ask method path = record {
  method = method;
  path = path;
  header = λ k. "";
  query = λ k. "";
  form = λ k. "";
  form_error = ok tt;
  context = nobody;
}

abbrev front : Handler World (Value ℤ) String
front = gate world_host offline no_doc toy_library no_token no_text serve open_options here

-- a request for the tools with a token that the validator refuses
abbrev tool_call : Request (Value ℤ)
tool_call = record (ask "POST" "/mcp/") {
  header = λ k. if k == "Authorization" then "Bearer t" else "";
}

discovery_reachable_example :
    let resource = ask "GET" "/.well-known/oauth-protected-resource" in
    let server = ask "GET" "/.well-known/oauth-authorization-server" in
    let register = ask "POST" "/register" in
    (((front tool_call start_world).0.status ≡ 401)
      × ((rest : String) × (lookup "WWW-Authenticate" (front tool_call start_world).0.headers
            ≡ some (
                "Bearer realm=\"https://here/mcp\", resource_metadata=\"https://here/.well-known/oauth-protected-resource\""
                <> rest))))
    × ((doc : Dict (Value ℤ)) × ((front resource start_world).0
          ≡ encoded no_text (write_json 200 doc))
        × (lookup "authorization_servers" doc ≡ some (strings ("https://here" ∷ []))))
    × ((doc : Dict (Value ℤ)) × ((front server start_world).0
          ≡ encoded no_text (write_json 200 doc))
        × (lookup "issuer" doc ≡ some (str "https://here"))
        × (lookup "registration_endpoint" doc ≡ some (str "https://here/register")))
    × ((doc : Dict (Value ℤ)) × ((front register start_world).0
          ≡ encoded no_text (write_json 201 doc))
        × (lookup "client_id" doc ≡ some (str "c")))
unfolding is_open_path extract_bearer_token trim_prefix drop_text
discovery_reachable_example =
    discovery_reachable world_host offline no_doc toy_library no_token no_text serve open_options
      here (λ pattern handler r w there named. ground (arith, there, named)) tool_call
      (ask "GET" "/.well-known/oauth-protected-resource")
      (ask "GET" "/.well-known/oauth-authorization-server") (ask "POST" "/register") start_world
      refl (λ e. cc, refl, inr ("t", message "invalid", refl, refl)) (refl, refl, refl)
      (refl, refl, refl) (refl, refl, refl)
