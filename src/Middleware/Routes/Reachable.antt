-- ===== src/Middleware/Routes/Reachable.antt =====
-- middleware/routes.go behind middleware/middleware.go: how a client with no token finds out where
-- to get one.
use mcp_authkit_go.Base.{String, true, some, [], ◌∷◌, ◌≡◌, refl, arith}
use text.Mathlib.TextLemmas.{append-nil}
use mcp_authkit_go.Base.{false, ◌<>◌, ◌≢◌, ◌⊎◌, ◌∙◌, ap, sym, eq_iff, none, inl, inr}
use mcp_authkit_go.Base.Dict.{Dict, lookup}
use mcp_authkit_go.Base.Action.{Action, Error, Result, err}
use mcp_authkit_go.Host.{Host, Library}
use mcp_authkit_go.Http.{HttpClient, Response}
use mcp_authkit_go.Value.{Value, str, strings}
use mcp_authkit_go.JwtValidator.{FailReason, invalid, expired}
use mcp_authkit_go.Middleware.{
  Options, Request, Handler, is_open_path, challenge_response, extract_bearer_token,
  write_unauthorized, write_token_expired, reject, new,
}
use mcp_authkit_go.Middleware.Routes.{
  WellKnownOptions, OidcDiscoveryDoc, write_json, write_protected_resource_metadata,
  write_authorization_server_metadata, handle_register, register_well_known_routes,
}

-- encoding/json, as far as `writeJSON` uses it
abbrev pub encoded : {B : Type 0} → (B → String) → Response B → Response String
encoded json r = record { status = r.status; headers = r.headers; body = json r.body }

-- `serve` is the ServeMux of net/http, which writes what the handler of a pattern wrote.
module _ {W N : Type 0} (host : Host W) (http : HttpClient W)
    (decode_doc : String → Result OidcDiscoveryDoc) (lib : Library)
    (check : String → String → Action W (FailReason × Result (Dict (Value N))))
    (json : Dict (Value N) → String)
    (serve : Dict (Handler W (Value N) (Dict (Value N))) → Handler W (Value N) String)
    (opts : Options) (known : WellKnownOptions) where
  abbrev routes : Dict (Handler W (Value N) (Dict (Value N)))
  routes = register_well_known_routes host http decode_doc known

  -- the middleware in front of the mux
  abbrev pub gate : Handler W (Value N) String
  gate = new lib check opts (serve routes)

  -- The request has this method and path, and the path is open.
  abbrev pub Asks : String → String → Request (Value N) → Type 0
  Asks method path r =
      (r.method ≡ method) × (r.path ≡ path) × (is_open_path path opts.open_paths ≡ true)

  -- The request needs a token, and has none or one that the validator refuses.
  abbrev pub Refused : Request (Value N) → W → Type 0
  Refused r w =
      (r.method ≢ "OPTIONS")
      × (is_open_path r.path opts.open_paths ≡ false)
      × ((extract_bearer_token r ≡ none)
          ⊎ ((token : String) × (e : Error) × (extract_bearer_token r ≡ some token)
              × ((check token opts.issuer_url w).0.1 ≡ err e)))

  -- the text of a challenge that points to a document, up to an error
  abbrev pub pointer : String → String → String
  pointer realm document =
      "Bearer realm=" <> lib.quote realm <> ", resource_metadata=" <> lib.quote document

  -- the base of every challenge of the middleware
  abbrev base : String
  base =
      pointer (opts.server_base_url <> "/mcp")
        (opts.server_base_url <> "/.well-known/oauth-protected-resource")

  rejected :
      (reason : FailReason)
      → (rest : String) × (reject lib check opts reason ≡ challenge_response (base <> rest))
  unfolding write_unauthorized write_token_expired
  rejected expired = (_, refl)
  rejected invalid = (_, refl)

  -- Such a request is answered with a challenge on that base.
  refused :
      (r : Request (Value N)) (w : W)
      → Refused r w
      → (rest : String) × ((gate r w).0 ≡ challenge_response (base <> rest))
  unfolding new write_unauthorized
  refused r w (closed, guarded, inl missing) =
      let not_options = eq_iff r.method "OPTIONS" in
      let at : (gate r w).0 ≡ challenge_response base = ground (arith, not_options) in
      ("", at ∙ ap challenge_response (sym (append-nil base)))
  refused r w (closed, guarded, inr (token, e, given, failed)) =
      let not_options = eq_iff r.method "OPTIONS" in
      let answer = (check token opts.issuer_url w).0 in
      let (rest, is) = rejected answer.0 in
      let at : (gate r w).0 ≡ reject lib check opts answer.0 = ground (arith, not_options) in
      (rest, at ∙ is)

  module _
      (serves : (pattern : String) (handler : Handler W (Value N) (Dict (Value N)))
          (r : Request (Value N)) (w : W)
        → lookup pattern routes ≡ some handler
        → pattern ≡ r.method <> " " <> r.path
        → (serve routes r w).0 ≡ encoded json (handler r w).0) where
    passed :
        (pattern : String) (handler : Handler W (Value N) (Dict (Value N))) (r : Request (Value N))
        (w : W)
        → lookup pattern routes ≡ some handler
        → (method path : String) → Asks method path r
        → pattern ≡ method <> " " <> path
        → (gate r w).0 ≡ encoded json (handler r w).0
    unfolding new
    passed pattern handler r w there method path (m, p, opened) named =
        ground (arith, serves pattern handler r w there, named, m, p, opened)

    -- A client with no token finds its way: where the three paths are open, the middleware and the
    -- routes have one server base URL, and the mux hands a request to the pattern that it names. A
    -- request that needs a token and has none, or one that the validator refuses, is answered with
    -- 401 and a WWW-Authenticate header that begins with the realm and the URL of the path of the
    -- resource metadata; that is answered with 200 and a document that lists one authorization
    -- server, the server base URL. The well-known path of that server is answered with 200 and a
    -- document that names the same URL as its issuer, and the path of registrations below it; and a
    -- registration there is answered with 201 and the configured client ID, whatever the tokens of
    -- these three requests.
    pub discovery_reachable :
        (tool resource server register : Request (Value N)) (w : W)
        → opts.server_base_url ≡ known.server_base_url
        → Refused tool w
        → Asks "GET" "/.well-known/oauth-protected-resource" resource
        → Asks "GET" "/.well-known/oauth-authorization-server" server
        → Asks "POST" "/register" register
        → (((gate tool w).0.status ≡ 401)
            × ((rest : String) × (lookup "WWW-Authenticate" (gate tool w).0.headers
                  ≡ some (
                      pointer
                        (known.server_base_url <> "/mcp")
                        (known.server_base_url <> resource.path)
                      <> rest))))
          × ((doc : Dict (Value N)) × ((gate resource w).0 ≡ encoded json (write_json 200 doc))
              × (lookup "authorization_servers" doc ≡ some (strings (known.server_base_url ∷ []))))
          × ((doc : Dict (Value N)) × ((gate server w).0 ≡ encoded json (write_json 200 doc))
              × (lookup "issuer" doc ≡ some (str known.server_base_url))
              × (lookup "registration_endpoint" doc
                  ≡ some (str (known.server_base_url <> register.path))))
          × ((doc : Dict (Value N)) × ((gate register w).0 ≡ encoded json (write_json 201 doc))
              × (lookup "client_id" doc ≡ some (str known.client_id)))
    unfolding register_well_known_routes write_protected_resource_metadata
        write_authorization_server_metadata handle_register lookup
    discovery_reachable tool resource server register w same no_token one two three =
        let (rest, at) = refused tool w no_token in
        let shown = ap (λ (x : Response String). lookup "WWW-Authenticate" x.headers) at in
        let status = ap (λ (x : Response String). x.status) at in
        (
          (status, (rest, ground (arith, shown, same, one.1))),
          (_, passed _ _ resource w refl _ _ one refl, refl),
          (_, passed _ _ server w refl _ _ two refl, refl, ground (arith, three.1)),
          (_, passed _ _ register w refl _ _ three refl, refl),
        )
