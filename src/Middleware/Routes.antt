-- ===== src/Middleware/Routes.antt =====
-- middleware/routes.go: the discovery documents and the registration façade.
pub mod Documents
pub mod Reachable
use mcp_authkit_go.Base.{ℕ, String, Option, none, some, [], ◌∷◌, ◌<>◌, eqb, if◌then◌else◌}
use mcp_authkit_go.Base.Dict.{Dict}
use mcp_authkit_go.Base.Action.{Action, Error, Result, ok, err, pure, ◌>>=◌, ◌>>◌}
use mcp_authkit_go.Host.{Host}
use mcp_authkit_go.Http.{ClientRequest, ClientResponse, HttpClient, Response}
use mcp_authkit_go.Value.{Value, str, int64, strings}
use mcp_authkit_go.Store.File.{unix}
use mcp_authkit_go.Middleware.{Handler}

pub record WellKnownOptions : Type 0 where
  pub server_base_url : String
  pub issuer_url : String
  pub client_id : String

pub record OidcDiscoveryDoc : Type 0 where
  pub authorization_endpoint : String
  pub token_endpoint : String
  pub jwks_uri : String

-- `writeJSON`: the body is the value that is encoded.
unfoldable pub write_json : {B : Type 0} → ℕ → B → Response B
write_json status v = record {
  status = status;
  headers = ("Content-Type", "application/json") ∷ [];
  body = v;
}

unfoldable pub write_protected_resource_metadata : {N : Type 0} → String → Response (Dict (Value N))
unfolding write_json
write_protected_resource_metadata server_base_url = write_json 200 (
    ("resource", str (server_base_url <> "/mcp"))
    ∷ ("authorization_servers", strings (server_base_url ∷ []))
    ∷ ("bearer_methods_supported", strings ("header" ∷ []))
    ∷ ("scopes_supported", strings ("openid" ∷ "profile" ∷ "email" ∷ []))
    ∷ [])

-- the document served where the issuer's own cannot be fetched
abbrev pub fallback_doc : String → OidcDiscoveryDoc
fallback_doc issuer_url = record {
  authorization_endpoint = issuer_url <> "/protocol/openid-connect/auth";
  token_endpoint = issuer_url <> "/protocol/openid-connect/token";
  jwks_uri = issuer_url <> "/protocol/openid-connect/certs";
}

module _ {W : Type 0} (host : Host W) (http : HttpClient W)
    (decode_doc : String → Result OidcDiscoveryDoc) where
  abbrev fall_back : String → Action W OidcDiscoveryDoc
  fall_back issuer_url = do
    host.log
        "middleware: upstream OIDC discovery fetch failed, falling back to Keycloak-shaped default paths"
    pure (fallback_doc issuer_url)

  unfoldable pub fetch_upstream_discovery : String → Action W OidcDiscoveryDoc
  fetch_upstream_discovery issuer_url =
      elim (http.new_request "GET" (issuer_url <> "/.well-known/openid-configuration") "") [
        | err _ ↦ fall_back issuer_url
        | ok req ↦ do
          answer ← http.send req
          elim answer [
            | err _ ↦ fall_back issuer_url
            | ok resp ↦
                if eqb resp.status 200
                then elim (decode_doc resp.body) [
                  | err _ ↦ fall_back issuer_url
                  | ok doc ↦ pure doc
                ]
                else fall_back issuer_url
          ]
      ]

  unfoldable pub write_authorization_server_metadata :
      {N : Type 0} → WellKnownOptions → Action W (Response (Dict (Value N)))
  unfolding write_json
  write_authorization_server_metadata opts = do
    doc ← fetch_upstream_discovery opts.issuer_url
    pure (
        write_json 200 (
          ("issuer", str opts.server_base_url)
          ∷ ("authorization_endpoint", str doc.authorization_endpoint)
          ∷ ("token_endpoint", str doc.token_endpoint)
          ∷ ("jwks_uri", str doc.jwks_uri)
          ∷ ("registration_endpoint", str (opts.server_base_url <> "/register"))
          ∷ ("response_types_supported", strings ("code" ∷ []))
          ∷ ("grant_types_supported", strings ("authorization_code" ∷ []))
          ∷ ("code_challenge_methods_supported", strings ("S256" ∷ []))
          ∷ ("token_endpoint_auth_methods_supported", strings ("none" ∷ []))
          ∷ []))

  -- The body of the request is decoded for the log alone.
  unfoldable pub handle_register : {N : Type 0} → String → Action W (Response (Dict (Value N)))
  unfolding write_json
  handle_register client_id = do
    host.log "middleware: DCR registration request received"
    now ← host.now
    pure (
        write_json 201 (
          ("client_id", str client_id)
          ∷ ("client_id_issued_at", int64 (unix now))
          ∷ ("grant_types", strings ("authorization_code" ∷ []))
          ∷ ("token_endpoint_auth_method", str "none")
          ∷ []))

  -- the patterns that are given to mux.HandleFunc, and their handlers
  unfoldable pub register_well_known_routes :
      {N : Type 0} → WellKnownOptions → Dict (Handler W (Value N) (Dict (Value N)))
  unfolding write_protected_resource_metadata write_authorization_server_metadata handle_register
  register_well_known_routes {N = N} opts =
      let resource : Handler W (Value N) (Dict (Value N)) =
        λ r. pure (write_protected_resource_metadata opts.server_base_url) in
      ("GET /.well-known/oauth-protected-resource", resource)
      ∷ ("GET /.well-known/oauth-protected-resource/{path...}", resource)
      ∷ (
        "GET /.well-known/oauth-authorization-server",
        λ r. write_authorization_server_metadata opts,
      )
      ∷ ("POST /register", λ r. handle_register opts.client_id)
      ∷ []
