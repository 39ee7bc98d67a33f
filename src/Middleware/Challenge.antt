-- ===== src/Middleware/Challenge.antt =====
-- The WWW-Authenticate header of the rejections of middleware/middleware.go.
use text.Mathlib.TextLemmas.{append-nil}
use text.Mathlib.TextPositions.{starts_with-append}
use mcp_authkit_go.Base.{String, true, Option, ◌≡◌, refl, ap, sym, ◌∙◌, arith}
use mcp_authkit_go.Base.{starts_with, ◌<>◌, ◌==◌, inl, inr, Bool-cases}
use mcp_authkit_go.Base.Dict.{lookup}
use mcp_authkit_go.Host.{Library}
use mcp_authkit_go.Http.{Response}
use mcp_authkit_go.Middleware.{
  bearer_challenge, challenge_response, write_unauthorized, write_token_expired,
}

challenge_of : Response String → Option String
challenge_of r = lookup "WWW-Authenticate" r.headers

module _ (lib : Library) (server_base_url : String) where
  -- The response carries one challenge, which begins with the realm and the pointer to the resource
  -- metadata of this server, and its status is 401.
  abbrev pub Challenges : Response String → Type 0
  Challenges r =
      (c : String) × (r ≡ challenge_response c)
      × (starts_with c (bearer_challenge lib server_base_url) ≡ true)

  starts_self : (s : String) → starts_with s s ≡ true
  starts_self s = ap (λ x. starts_with x s) (sym (append-nil s)) ∙ starts_with-append s ""

  -- Every rejection is a 401 whose challenge begins with this server's realm and the pointer to its
  -- resource metadata.
  pub rejections-Challenges :
      (error_code : String)
      → Challenges (write_unauthorized lib server_base_url error_code)
        × Challenges (write_token_expired lib server_base_url)
  unfolding write_unauthorized write_token_expired
  rejections-Challenges error_code =
      let base = bearer_challenge lib server_base_url in
      (
        elim (Bool-cases (error_code == "")) [
          | inl plain ↦ (base, ground arith, starts_self base)
          | inr coded ↦ (
            base <> ", error=" <> lib.quote error_code,
            ground arith,
            starts_with-append base (", error=" <> lib.quote error_code),
          )
        ],
        (_, refl, starts_with-append base _),
      )
