-- ===== src/Middleware/Routes/Documents.antt =====
-- The discovery documents of middleware/routes.go agree with one another and with the issuer.
use native.Mathlib.Decide.{ℕ_discrete}
use mcp_authkit_go.Base.{String, some, [], ◌∷◌, ◌≡◌, ◌⊎◌, inl, inr, refl, arith, ◌<>◌}
use mcp_authkit_go.Base.Dict.{Dict, lookup}
use mcp_authkit_go.Base.Action.{Result, ok, Result-cases}
use mcp_authkit_go.Host.{Host}
use mcp_authkit_go.Http.{ClientRequest, ClientResponse, HttpClient, Response}
use mcp_authkit_go.Value.{Value, str, strings}
use mcp_authkit_go.Middleware.Routes.{
  WellKnownOptions, OidcDiscoveryDoc, fallback_doc, write_protected_resource_metadata,
  fetch_upstream_discovery, write_authorization_server_metadata,
}

module _ {W : Type 0} (host : Host W) (http : HttpClient W)
    (decode_doc : String → Result OidcDiscoveryDoc) where
  -- What the issuer itself answered.
  pub record Fetched (doc : OidcDiscoveryDoc) : Type 0 where
    pub req : ClientRequest
    pub resp : ClientResponse
    pub before : W
    pub answered : (http.send req before).0 ≡ ok resp
    pub is_ok : resp.status ≡ 200
    pub decoded : decode_doc resp.body ≡ ok doc

  -- The document is the one that the issuer served with status 200, or the default paths under the
  -- issuer's URL: there is no error.
  pub fetch_upstream_discovery_cases :
      (issuer_url : String) (w : W)
      → ((fetch_upstream_discovery host http decode_doc issuer_url w).0 ≡ fallback_doc issuer_url)
        ⊎ Fetched (fetch_upstream_discovery host http decode_doc issuer_url w).0
  unfolding fetch_upstream_discovery
  fetch_upstream_discovery_cases issuer_url w =
      elim (Result-cases
        (http.new_request "GET" (issuer_url <> "/.well-known/openid-configuration") "")) [
          | inr (x, bad) ↦ inl (ground arith)
          | inl (req, made) ↦ elim (Result-cases (http.send req w).0) [
            | inr (x, bad) ↦ inl (ground arith)
            | inl (resp, answered) ↦ elim (Result-cases (decode_doc resp.body)) [
              | inr (x, bad) ↦ inl (ground arith)
              | inl (doc, decoded) ↦ elim (ℕ_discrete resp.status 200) [
                | no other ↦ inl (ground arith)
                | yes is_ok ↦
                    let same : (fetch_upstream_discovery host http decode_doc issuer_url w).0
                        ≡ doc =
                      ground arith in
                    inr (
                      rw same (record {
                        req = req;
                        resp = resp;
                        before = w;
                        answered = answered;
                        is_ok = is_ok;
                        decoded = decoded;
                      }))
              ]
            ]
          ]
        ]

  -- The one authorization server that the resource metadata lists is the issuer that the
  -- authorization server metadata names, and clients register there: this server's own base URL,
  -- whatever the upstream issuer and its document.
  pub metadata_agree :
      (N : Type 0) (opts : WellKnownOptions) (w : W)
      → let resource : Response (Dict (Value N)) =
          write_protected_resource_metadata opts.server_base_url in
        let server : Response (Dict (Value N)) =
          (write_authorization_server_metadata host http decode_doc opts w).0 in
        (url : String) × (lookup "authorization_servers" resource.body ≡ some (strings (url ∷ [])))
        × (lookup "issuer" server.body ≡ some (str url))
        × (lookup "registration_endpoint" server.body ≡ some (str (url <> "/register")))
        × (url ≡ opts.server_base_url)
  unfolding write_protected_resource_metadata write_authorization_server_metadata lookup
  metadata_agree N opts w = (opts.server_base_url, refl, refl, refl, refl)
