-- ===== src/OauthProvider/Standard.antt =====
-- oauthprovider/oauthprovider.go: `New`, `FromStandardOAuth2` and the requests to a token endpoint.
-- The stores of package store's factory, the HTTP client and the codecs are parameters.
use mcp_authkit_go.Base.{zero, String, not, Option, none, some, [], ◌∷◌, ◌≡◌, ◌<>◌, ◌↔◌, inl, inr}
use mcp_authkit_go.Base.{arith, eqb, if◌then◌else◌}
use mcp_authkit_go.Base.Int.{ℤ, pos, ◌*ℤ◌}
use mcp_authkit_go.Base.Dict.{Dict, insert}
use mcp_authkit_go.Base.Action.{
  Action, message, wrapped, wrap_error, Result, ok, err, pure, ◌>>=◌, Result-cases,
}
use mcp_authkit_go.Host.{Library}
use mcp_authkit_go.Http.{ClientRequest, ClientResponse, HttpClient}
use mcp_authkit_go.Value.{Value, GoMap}
use mcp_authkit_go.Store.{TokenStore, PendingStore}
use mcp_authkit_go.OauthProvider.{Provider}

pub record Options (W N : Type 0) : Type 0 where
  pub name : String
  pub build_auth_url : String → String → String
  pub exchange_code : String → Action W (Result (GoMap (Value N)))
  pub redirect_uri : String
  pub token_store : Option (TokenStore W (Value N))
  pub pending_store : Option (PendingStore W N (Value N))
  pub refresh_token_fn : Option (String → Action W (Result (GoMap (Value N))))
  -- nanoseconds
  pub token_timeout : ℤ

pub record StandardOauth2Options (W N : Type 0) : Type 0 where
  pub name : String
  pub authorization_url : String
  pub token_url : String
  pub client_id : String
  pub client_secret : String
  pub scope : String
  pub redirect_uri : String
  pub token_store : Option (TokenStore W (Value N))
  pub pending_store : Option (PendingStore W N (Value N))
  pub refresh_token_fn : Option (String → Action W (Result (GoMap (Value N))))
  pub token_timeout : ℤ
  pub http_client : Option (HttpClient W)

-- url.Values.Encode of keys with one value each, the path of url.Parse, and the JSON decoder
pub record Codecs (V : Type 0) : Type 0 where
  pub encode : Dict String → String
  pub path_of : String → Result String
  pub decode : String → Result (GoMap V)

-- `if opts.TokenTimeout == 0`: 120 seconds
abbrev timeout_or_default : ℤ → ℤ
timeout_or_default (pos zero) = pos 120 *ℤ pos 1000000000
timeout_or_default t = t

abbrev or_else : {A : Type 0} → Option A → A → A
or_else none a = a
or_else (some b) a = b

module _ {W N : Type 0} (codecs : Codecs (Value N))
    (create_stores : String
      → Action W (Result (TokenStore W (Value N) × PendingStore W N (Value N)))) where
  -- the two stores, of which a given one comes first; the factory is asked where one is missing
  abbrev default_stores :
      Options W N → Action W (Result (TokenStore W (Value N) × PendingStore W N (Value N)))
  default_stores opts = do
    created ← create_stores opts.name
    pure (elim created [
      | err e ↦ err (wrapped "oauthprovider: creating default stores" e)
      | ok (ts, ps) ↦ ok (or_else opts.token_store ts, or_else opts.pending_store ps)
    ])

  abbrev stores_of :
      Options W N → Action W (Result (TokenStore W (Value N) × PendingStore W N (Value N)))
  stores_of opts = elim opts.token_store [
    | none ↦ default_stores opts
    | some token_store ↦ elim opts.pending_store [
      | none ↦ default_stores opts
      | some pending_store ↦ pure (ok (token_store, pending_store))
    ]
  ]

  abbrev build :
      Options W N → TokenStore W (Value N) × PendingStore W N (Value N) → String → Provider W N
  build opts (token_store, pending_store) path = record {
    name = opts.name;
    build_auth_url = opts.build_auth_url;
    exchange_code = opts.exchange_code;
    redirect_uri = opts.redirect_uri;
    callback_path = path;
    token_store = token_store;
    pending_store = pending_store;
    refresh_token_fn = opts.refresh_token_fn;
    token_timeout = timeout_or_default opts.token_timeout;
  }

  unfoldable pub new : Options W N → Action W (Result (Provider W N))
  new opts = do
    stores ← stores_of opts
    pure (elim stores [
      | err e ↦ err e
      | ok pair ↦ elim (codecs.path_of opts.redirect_uri) [
        | err e ↦ err (wrapped "oauthprovider: parsing redirect URI" e)
        | ok path ↦ ok (build opts pair path)
      ]
    ])

  module _ (lib : Library) where
    abbrev pub as_token_request : ClientRequest → ClientRequest
    as_token_request req = record req {
      headers =
          insert "Accept" "application/json"
            (insert "Content-Type" "application/x-www-form-urlencoded" req.headers);
    }

    unfoldable pub read_token_response : ClientResponse → Result (GoMap (Value N))
    read_token_response resp =
        if not (eqb resp.status 200)
        then err (
            message
              ("oauthprovider: token endpoint returned status " <> lib.decimal (pos resp.status)))
        else wrap_error "oauthprovider: decoding token response" (codecs.decode resp.body)

    unfoldable pub do_token_request :
        HttpClient W → String → Dict String → Action W (Result (GoMap (Value N)))
    unfolding read_token_response
    do_token_request client token_url form =
        elim (client.new_request "POST" token_url (codecs.encode form)) [
          | err e ↦ pure (err e)
          | ok req ↦ do
            answer ← client.send (as_token_request req)
            pure (elim answer [
              | err e ↦ err (wrapped "oauthprovider: token request failed" e)
              | ok resp ↦ read_token_response resp
            ])
        ]

    module _ (default_client : HttpClient W) (opts : StandardOauth2Options W N) where
      abbrev client_of : HttpClient W
      client_of = or_else opts.http_client default_client

      unfoldable pub standard_auth_url : String → String → String
      standard_auth_url state redirect_uri =
          opts.authorization_url
          <> "?"
          <> codecs.encode (
              ("client_id", opts.client_id)
              ∷ ("redirect_uri", redirect_uri)
              ∷ ("response_type", "code")
              ∷ ("scope", opts.scope)
              ∷ ("state", state)
              ∷ [])

      unfoldable pub standard_exchange : String → Action W (Result (GoMap (Value N)))
      standard_exchange code = do_token_request client_of opts.token_url (
          ("client_id", opts.client_id)
          ∷ ("client_secret", opts.client_secret)
          ∷ ("code", code)
          ∷ ("redirect_uri", opts.redirect_uri)
          ∷ ("grant_type", "authorization_code")
          ∷ [])

      unfoldable pub standard_refresh : String → Action W (Result (GoMap (Value N)))
      standard_refresh refresh_token = do_token_request client_of opts.token_url (
          ("client_id", opts.client_id)
          ∷ ("client_secret", opts.client_secret)
          ∷ ("refresh_token", refresh_token)
          ∷ ("grant_type", "refresh_token")
          ∷ [])

      unfoldable pub from_standard_oauth2 : Action W (Result (Provider W N))
      unfolding new
      from_standard_oauth2 = new (record {
        name = opts.name;
        build_auth_url = standard_auth_url;
        exchange_code = standard_exchange;
        redirect_uri = opts.redirect_uri;
        token_store = opts.token_store;
        pending_store = opts.pending_store;
        refresh_token_fn =
            some (elim opts.refresh_token_fn [ none ↦ standard_refresh | some refresh ↦ refresh ]);
        token_timeout = timeout_or_default opts.token_timeout;
      })

    -- A token endpoint's answer becomes a token only if the request was sent as a POST of the
    -- encoded form and came back with status 200 and a body that decodes, and then the token is
    -- what the body decodes to. In every other case there is an error.
    pub do_token_request_iff :
        (client : HttpClient W) (token_url : String) (form : Dict String) (data' : GoMap (Value N))
        (w : W)
        → ((do_token_request client token_url form w).0 ≡ ok data') ↔ (
            (req : ClientRequest) × (resp : ClientResponse) × (client.new_request "POST" token_url
                (codecs.encode form)
              ≡ ok req)
            × ((client.send (as_token_request req) w).0 ≡ ok resp)
            × (resp.status ≡ 200)
            × (codecs.decode resp.body ≡ ok data'))
    unfolding do_token_request read_token_response
    do_token_request_iff client token_url form data' w = (
      λ done. elim (Result-cases (client.new_request "POST" token_url (codecs.encode form))) [
        | inr (e, bad) ↦ absurd (ground arith)
        | inl (req, made) ↦ elim (Result-cases (client.send (as_token_request req) w).0) [
          | inr (e, bad) ↦ absurd (ground arith)
          | inl (resp, sent) ↦ elim (Result-cases (codecs.decode resp.body)) [
            | inr (e, bad) ↦ absurd (ground arith)
            | inl (m, decoded) ↦ (req, resp, made, sent, ground arith, ground arith)
          ]
        ]
      ],
      λ (req, resp, made, sent, fine, decoded). ground arith,
    )
