-- ===== src/Http.antt =====
-- net/http as the program uses it, over a client that is a parameter.
use mcp_authkit_go.Base.{ℕ, String}
use mcp_authkit_go.Base.Action.{Action, Result}
use mcp_authkit_go.Base.Dict.{Dict}

-- An outgoing request; `content` is its body.
pub record ClientRequest : Type 0 where
  pub method : String
  pub url : String
  pub headers : Dict String
  pub content : String

pub record ClientResponse : Type 0 where
  pub status : ℕ
  pub body : String

pub record HttpClient (W : Type 0) : Type 0 where
  -- http.NewRequestWithContext of a method, a URL and a body
  pub new_request : String → String → String → Result ClientRequest
  -- client.Do
  pub send : ClientRequest → Action W (Result ClientResponse)

-- What a handler wrote: the status, the headers and the body.
pub record Response (B : Type 0) : Type 0 where
  pub status : ℕ
  pub headers : Dict String
  pub body : B
