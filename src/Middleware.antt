-- ===== src/Middleware.antt =====
-- middleware/middleware.go: the bearer check in front of every handler, and the user that it puts
-- into the request's context.
pub mod Access
pub mod Challenge
pub mod Routes
use mcp_authkit_go.Base.{
  ℕ, zero, suc, String, Bool, true, false, not, ◌||◌, Option, none, some, List, [], ◌∷◌,
}
use mcp_authkit_go.Base.{◌==◌, ◌<>◌, starts_with, if◌then◌else◌}
use mcp_authkit_go.Base.Dict.{Dict, lookup, insert}
use mcp_authkit_go.Base.Action.{Action, Result, ok, err}
use mcp_authkit_go.Host.{Library}
use mcp_authkit_go.Http.{HttpClient, Response}
use mcp_authkit_go.Value.{Value, GoMap, string_at}
use mcp_authkit_go.JwtValidator.{FailReason, invalid, expired, Validator, Jwx, validate}

pub record User (V : Type 0) : Type 0 where
  pub sub : String
  pub preferred_username : String
  pub email : String
  pub name : String
  pub issuer : String
  pub claims : Dict V

-- The values that this program puts into a context.Context, by key. A value that is set again hides
-- the one before it.
pub record Context (V : Type 0) : Type 0 where
  pub user : Option (User V)
  pub token : Option String
  pub credentials : Option (GoMap V)

unfoldable pub user_from_context : {V : Type 0} → Context V → Option (User V)
user_from_context ctx = ctx.user

unfoldable pub with_user : {V : Type 0} → Context V → User V → Context V
with_user ctx u = record ctx { user = some u }

-- An incoming request: `header` is Header.Get, "" for a header that is not there, and `query` and
-- `form` are Get of the parsed query and of PostForm. `form_error` is what ParseForm would return.
pub record Request (V : Type 0) : Type 0 where
  pub method : String
  pub path : String
  pub header : String → String
  pub query : String → String
  pub form : String → String
  pub form_error : Result (Unit {0})
  pub context : Context V

pub record Options : Type 0 where
  pub issuer_url : String
  pub server_base_url : String
  pub open_paths : List String

-- An http.Handler, over a world that it may change.
abbrev pub Handler : Type 0 → Type 0 → Type 0 → Type 0
Handler W V B = Request V → Action W (Response B)

unfoldable pub is_open_path : String → List String → Bool
is_open_path path [] = false
is_open_path path (prefix ∷ prefixes) =
    if starts_with path prefix then true else is_open_path path prefixes

-- a text without as many characters as the prefix has
unfoldable pub drop_text : String → String → String
drop_text s String.[] = s
drop_text String.[] p = String.[]
drop_text (String.◌∷◌ c s) (String.◌∷◌ d p) = drop_text s p

-- strings.TrimPrefix
unfoldable pub trim_prefix : String → String → String
unfolding drop_text
trim_prefix s p = if starts_with s p then drop_text s p else s

unfoldable pub extract_bearer_token : {V : Type 0} → Request V → Option String
extract_bearer_token r =
    let header = r.header "Authorization" in
    if not (starts_with header "Bearer ")
    then none
    else let token = trim_prefix header "Bearer " in if token == "" then none else some token

unfoldable pub user_from_claims : {N : Type 0} → Dict (Value N) → User (Value N)
user_from_claims claims =
    let sub = string_at "sub" claims in
    let preferred_username = string_at "preferred_username" claims in
    record {
      sub =
          if sub == ""
          then (if not (preferred_username == "") then preferred_username else "unknown")
          else sub;
      preferred_username = preferred_username;
      email = string_at "email" claims;
      name = string_at "name" claims;
      issuer = string_at "iss" claims;
      claims = claims;
    }

-- A rejection has no body.
abbrev pub challenge_response : String → Response String
challenge_response challenge = record {
  status = 401;
  headers = ("WWW-Authenticate", challenge) ∷ [];
  body = "";
}

module _ (lib : Library) where
  -- Bearer realm=%q, resource_metadata=%q
  abbrev pub bearer_challenge : String → String
  bearer_challenge server_base_url =
      "Bearer realm="
      <> lib.quote (server_base_url <> "/mcp")
      <> ", resource_metadata="
      <> lib.quote (server_base_url <> "/.well-known/oauth-protected-resource")

  unfoldable pub write_unauthorized : String → String → Response String
  write_unauthorized server_base_url error_code = challenge_response (
      if not (error_code == "")
      then bearer_challenge server_base_url <> ", error=" <> lib.quote error_code
      else bearer_challenge server_base_url)

  unfoldable pub write_token_expired : String → Response String
  write_token_expired server_base_url = challenge_response (
      bearer_challenge server_base_url
      <> ", error=\"invalid_token\", error_description=\"The access token expired\"")

-- The middleware, over a validator's state `S` and its `Validate`, in front of `next`.
module _ {S N : Type 0} (lib : Library)
    (check : String → String → Action S (FailReason × Result (Dict (Value N))))
    (opts : Options) where
  -- the rejection of a token
  abbrev pub reject : FailReason → Response String
  reject expired = write_token_expired lib opts.server_base_url
  reject invalid = write_unauthorized lib opts.server_base_url "invalid_token"

  unfoldable pub new : Handler S (Value N) String → Handler S (Value N) String
  new next r =
      if r.method == "OPTIONS" || is_open_path r.path opts.open_paths
      then next r
      else elim (extract_bearer_token r) [
        | none ↦ λ s. (write_unauthorized lib opts.server_base_url "", s)
        | some token ↦ λ s.
            let (answer, s') = check token opts.issuer_url s in
            elim answer.1 [
              | err e ↦ (reject answer.0, s')
              | ok claims ↦
                  next (record r { context = with_user r.context (user_from_claims claims) }) s'
            ]
      ]
