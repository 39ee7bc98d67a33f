-- ===== src/JwtValidator/Discovery.antt =====
-- The discovery documents that `getOIDCConfig` of jwtvalidator/jwtvalidator.go keeps.
use mcp_authkit_go.Base.{String, some, ◌≡◌, ◌≢◌, arith, eq_iff, ◌<>◌, inl, inr}
use mcp_authkit_go.Base.Dict.{lookup, lookup-insert}
use mcp_authkit_go.Base.Action.{ok, Result-cases}
use mcp_authkit_go.Host.{Library}
use mcp_authkit_go.Http.{ClientResponse, HttpClient}
use mcp_authkit_go.JwtValidator.{
  OidcConfig, Validator, Jwx, read_config, fetch_config, get_oidc_config,
}

-- Every document that is kept names a key set.
pub record IsComplete {W : Type 0} (v : Validator W) : Type 0 where
  pub named :
      (url : String) (cfg : OidcConfig) → lookup url v.oidc_configs ≡ some cfg → cfg.jwks_uri ≢ ""

module _ {W KeySet Token V : Type 0} (http : HttpClient W) (jwx : Jwx W KeySet Token V)
    (lib : Library) where
  read_config-named :
      (resp : ClientResponse) (cfg : OidcConfig)
      → read_config http jwx lib resp ≡ ok cfg
      → cfg.jwks_uri ≢ ""
  unfolding read_config
  read_config-named resp cfg e = elim (Result-cases (jwx.decode_config resp.body)) [
    | inr (x, bad) ↦ absurd (ground arith)
    | inl (c, good) ↦ ground (arith, eq_iff c.jwks_uri "")
  ]

  fetch_config-named :
      (url : String) (w : W) (cfg : OidcConfig)
      → (fetch_config http jwx lib url w).0 ≡ ok cfg
      → cfg.jwks_uri ≢ ""
  unfolding fetch_config
  fetch_config-named url w cfg e =
      elim (Result-cases (http.new_request "GET" (url <> "/.well-known/openid-configuration") "")) [
        | inr (x, bad) ↦ absurd (ground arith)
        | inl (req, made) ↦ elim (Result-cases (http.send req w).0) [
          | inr (x, bad) ↦ absurd (ground arith)
          | inl (resp, answered) ↦ read_config-named resp cfg (ground arith)
        ]
      ]

  -- Where every document that is kept names a key set, `getOIDCConfig` keeps it so, and what it
  -- returns names a key set too.
  pub get_oidc_config-IsComplete :
      (url : String) (v : Validator W)
      → IsComplete v
      → IsComplete (get_oidc_config http jwx lib url v).1
        × ((cfg : OidcConfig) → (get_oidc_config http jwx lib url v).0 ≡ ok cfg → cfg.jwks_uri ≢ "")
  unfolding get_oidc_config
  get_oidc_config-IsComplete url v c =
      elim (Result-cases (fetch_config http jwx lib url v.world).0) [
        | inr (x, bad) ↦ (
          record { named = λ u d e. ground (arith, c.named u d) },
          λ d e. ground (arith, c.named url d),
        )
        | inl (cfg, good) ↦
            let named = fetch_config-named url v.world cfg good in
            (
              record {
                named = λ u d e. ground (
                  arith,
                  c.named u d,
                  lookup-insert url u cfg v.oidc_configs,
                  eq_iff url u,
                  named,
                );
              },
              λ d e. ground (arith, c.named url d, named),
            )
      ]

  -- A document is fetched once: after a call that returned it, a call for the same issuer returns
  -- it again, and neither the validator nor the network sees anything of it.
  pub get_oidc_config_again :
      (url : String) (v : Validator W) (cfg : OidcConfig)
      → (get_oidc_config http jwx lib url v).0 ≡ ok cfg
      → let v' = (get_oidc_config http jwx lib url v).1 in
        get_oidc_config http jwx lib url v' ≡ (ok cfg, v')
  unfolding get_oidc_config
  get_oidc_config_again url v cfg e =
      ground (arith, lookup-insert url url cfg v.oidc_configs, eq_iff url url)
