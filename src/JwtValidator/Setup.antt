-- ===== src/JwtValidator/Setup.antt =====
-- jwtvalidator/jwtvalidator.go: `New`, its options and `Shutdown`. `Client` is http.Client, `Tls`
-- is tls.Config, and `Cache` is jwk.Cache.
use mcp_authkit_go.Base.{◌∙◌, Option, none, some, List, [], ◌∷◌, ◌++◌, ◌≡◌, refl, arith, inl, inr}
use mcp_authkit_go.Base.Action.{Action, wrapped, Result, ok, err, pure, ◌>>=◌, Result-cases}
use mcp_authkit_go.Base.Dict.{Dict}
use mcp_authkit_go.JwtValidator.{OidcConfig}

-- A `Validator` as `New` builds it: `cache` is nil until jwk.NewCache has made one.
pub record Setup (Client Cache : Type 0) : Type 0 where
  pub http_client : Client
  pub cache : Option Cache
  pub oidc_configs : Dict OidcConfig

abbrev pub SetupOption : Type 0 → Type 0 → Type 0
SetupOption Client Cache = Setup Client Cache → Setup Client Cache

-- httprc and jwx: a cache over a client, with its background loop, and the end of the loop
pub record Caches (W Client Cache : Type 0) : Type 0 where
  pub new_cache : Client → Action W (Result Cache)
  pub shutdown : Cache → Action W (Result (Unit {0}))

module _ {Client Cache : Type 0} where
  unfoldable pub with_http_client : Client → SetupOption Client Cache
  with_http_client client v = record v { http_client = client }

  -- `tls_client` makes a client with a transport of this TLS config.
  unfoldable pub with_tls_config : {Tls : Type 0} → (Tls → Client) → Tls → SetupOption Client Cache
  with_tls_config tls_client cfg v = record v { http_client = tls_client cfg }

  -- the loop over the options
  unfoldable pub apply : List (SetupOption Client Cache) → SetupOption Client Cache
  apply [] v = v
  apply (opt ∷ opts) v = apply opts (opt v)

module _ {W Client Cache : Type 0} (caches : Caches W Client Cache) (default_client : Client) where
  unfoldable pub new : List (SetupOption Client Cache) → Action W (Result (Setup Client Cache))
  unfolding apply
  new opts = do
    let v = apply opts (record { http_client = default_client; cache = none; oidc_configs = [] })
    made ← caches.new_cache v.http_client
    pure (elim made [
      | err e ↦ err (wrapped "jwtvalidator: creating JWKS cache" e)
      | ok cache ↦ ok (record v { cache = some cache })
    ])

module _ {W Client Cache : Type 0} (caches : Caches W Client Cache) where
  unfoldable pub shutdown : Cache → Action W (Result (Unit {0}))
  shutdown cache = caches.shutdown cache

module _ {W Client Cache : Type 0} (caches : Caches W Client Cache) (default_client : Client) where
  -- An option that names a client: what it makes of a validator is a validator with that client,
  -- and nothing else changed.
  abbrev pub Names : SetupOption Client Cache → Client → Type 0
  Names opt client = (v : Setup Client Cache) → opt v ≡ record v { http_client = client }

  apply-append :
      (xs ys : List (SetupOption Client Cache)) (v : Setup Client Cache)
      → apply (xs ++ ys) v ≡ apply ys (apply xs v)
  unfolding apply
  apply-append [] ys v = refl
  apply-append (x ∷ xs) ys v = apply-append xs ys (x v)

  -- Where the last option names a client, as `WithHTTPClient` and `WithTLSConfig` do, whatever the
  -- others are: that client fetches the discovery documents of the validator that `New` returns,
  -- and its cache is one that was made over the same client.
  pub new-Names :
      (opts : List (SetupOption Client Cache)) (opt : SetupOption Client Cache) (client : Client)
      (w : W) (v : Setup Client Cache)
      → Names opt client
      → (new caches default_client (opts ++ opt ∷ []) w).0 ≡ ok v
      → (v.http_client ≡ client)
        × ((cache : Cache) × ((caches.new_cache client w).0 ≡ ok cache) × (v.cache ≡ some cache))
  unfolding new apply
  new-Names opts opt client w v names e =
      let first : Setup Client Cache = record {
        http_client = default_client;
        cache = none;
        oidc_configs = [];
      } in
      let last : apply (opts ++ opt ∷ []) first
          ≡ record (apply opts first) { http_client = client } =
        apply-append opts (opt ∷ []) first ∙ names (apply opts first) in
      elim (Result-cases (caches.new_cache client w).0) [
        | inr (x, bad) ↦ absurd (ground (arith, last))
        | inl (cache, made) ↦ (ground (arith, last), (cache, made, ground (arith, last)))
      ]

  pub with_http_client-Names : (client : Client) → Names (with_http_client client) client
  unfolding with_http_client
  with_http_client-Names client v = refl

  pub with_tls_config-Names :
      {Tls : Type 0} (tls_client : Tls → Client) (cfg : Tls)
      → Names (with_tls_config tls_client cfg) (tls_client cfg)
  unfolding with_tls_config
  with_tls_config-Names tls_client cfg v = refl
