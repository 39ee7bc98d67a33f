-- ===== src/Middleware/Access.antt =====
-- Who gets past the middleware of middleware/middleware.go.
use text.Mathlib.TextLemmas.{nil-append, cons-append}
use text.Mathlib.TextPositions.{starts_with-append}
use text.Mathlib.TextEquality.{starts_with_iff}
use mcp_authkit_go.Base.{String, true, false, some, List, [], ◌∷◌, ◌≡◌, ◌≢◌, ◌↔◌, ◌⊎◌, inl, inr}
use mcp_authkit_go.Base.{sym, ap, ◌∙◌, arith, eq_iff, ◌<>◌, starts_with, Bool-cases, Option-cases}
use mcp_authkit_go.Base.Dict.{Dict}
use mcp_authkit_go.Base.Action.{Action, Result, ok, Result-cases}
use mcp_authkit_go.Host.{Library}
use mcp_authkit_go.Http.{HttpClient}
use mcp_authkit_go.Value.{Value, string_at}
use mcp_authkit_go.JwtValidator.{FailReason, Validator, Jwx, validate}
use mcp_authkit_go.JwtValidator.Complete.{Passes, validate_iff}
use mcp_authkit_go.JwtValidator.Verdict.{IsAccepted, validate_sound}
use mcp_authkit_go.Middleware.{
  Request, Options, Handler, with_user, is_open_path, drop_text, trim_prefix, extract_bearer_token,
  user_from_claims, write_unauthorized, write_token_expired, new,
}

-- Some element satisfies the predicate.
abbrev pub Any : (String → Type 0) → List String → Type 0
Any P [] = ⊥
Any P (x ∷ xs) = P x ⊎ Any P xs

-- A path is open exactly if one of the configured texts is a prefix of it.
pub is_open_path_iff :
    (path : String) (prefixes : List String)
    → (is_open_path path prefixes ≡ true) ↔ Any (λ p. starts_with path p ≡ true) prefixes
unfolding is_open_path
is_open_path_iff path [] = (λ e. cc, λ h. absurd h)
is_open_path_iff path (p ∷ ps) = ground (arith, is_open_path_iff path ps)

drop_text-append : (p t : String) → drop_text (p <> t) p ≡ t
unfolding drop_text
drop_text-append String.[] t = nil-append t
drop_text-append (String.◌∷◌ c p) t = rw cons-append (drop_text-append p t)

-- The token of a request is the text after "Bearer " in its Authorization header, if that is not
-- empty; any other header has none.
pub extract_bearer_token_iff :
    {V : Type 0} (r : Request V) (t : String)
    → (extract_bearer_token r ≡ some t) ↔ ((r.header "Authorization" ≡ "Bearer " <> t) × (t ≢ ""))
unfolding extract_bearer_token trim_prefix
extract_bearer_token_iff r t =
    let h = r.header "Authorization" in
    (
      λ e. elim (Bool-cases (starts_with h "Bearer ")) [
        | inr other ↦ absurd (ground arith)
        | inl bearer ↦
            let (u, split) = (starts_with_iff h "Bearer ").0 bearer in
            let rest : drop_text h "Bearer " ≡ u =
              ap (λ x. drop_text x "Bearer ") (sym split) ∙ drop_text-append "Bearer " u in
            let same : u ≡ t = ground (arith, eq_iff u "") in
            (sym split ∙ ap (λ x. "Bearer " <> x) same, ground (arith, eq_iff u ""))
      ],
      λ (e, ne).
          let bearer : starts_with h "Bearer " ≡ true =
            ap (λ x. starts_with x "Bearer ") e ∙ starts_with-append "Bearer " t in
          let rest : drop_text h "Bearer " ≡ t =
            ap (λ x. drop_text x "Bearer ") e ∙ drop_text-append "Bearer " t in
          ground (arith, eq_iff t ""),
    )

-- The subject is never empty: it is the claim "sub" if that is a text and not empty, else the claim
-- "preferred_username" likewise, else "unknown".
pub sub-user_from_claims :
    {N : Type 0} (claims : Dict (Value N))
    → ((user_from_claims claims).sub ≢ "")
      × (string_at "sub" claims ≢ "" → (user_from_claims claims).sub ≡ string_at "sub" claims)
      × (string_at "sub" claims ≡ ""
          → string_at "preferred_username" claims ≢ ""
          → (user_from_claims claims).sub ≡ string_at "preferred_username" claims)
unfolding user_from_claims
sub-user_from_claims claims =
    let a = eq_iff (string_at "sub" claims) "" in
    let b = eq_iff (string_at "preferred_username" claims) "" in
    let c = eq_iff "unknown" "" in
    (ground (arith, a, b, c), ground (arith, a), ground (arith, a, b))

module _ {S N : Type 0} (lib : Library)
    (check : String → String → Action S (FailReason × Result (Dict (Value N))))
    (opts : Options) where
  -- The check of the request's token in state `s` returned these claims.
  pub record Authenticated (r : Request (Value N)) (s : S) (claims : Dict (Value N)) : Type 0 where
    pub token : String
    pub presented : extract_bearer_token r ≡ some token
    pub checked : (check token opts.issuer_url s).0.1 ≡ ok claims

  -- the request as the wrapped handler gets it
  abbrev pub as_user : Request (Value N) → Dict (Value N) → Request (Value N)
  as_user r claims = record r { context = with_user r.context (user_from_claims claims) }

  module _ (r : Request (Value N)) (s : S) (closed : r.method ≢ "OPTIONS")
      (guarded : is_open_path r.path opts.open_paths ≡ false) where
    -- A request for a path that is not open reaches the wrapped handler with the user of its
    -- claims, in the state that the check left, if its token passes the check. Otherwise the answer
    -- is 401 whatever the handler, which is not run.
    pub new_guard :
        (next : Handler S (Value N) String)
        → ((claims : Dict (Value N)) (a : Authenticated r s claims)
            → new lib check opts next r s
              ≡ next (as_user r claims) (check a.token opts.issuer_url s).1)
          × (((claims : Dict (Value N)) → ¬ Authenticated r s claims)
              → ((new lib check opts next r s).0.status ≡ 401)
                × ((other : Handler S (Value N) String)
                    → new lib check opts next r s ≡ new lib check opts other r s))
    unfolding new write_unauthorized write_token_expired
    new_guard next =
        let not_options = eq_iff r.method "OPTIONS" in
        (
          λ claims a. ground (arith, not_options, a.presented, a.checked),
          λ free. elim (Option-cases (extract_bearer_token r)) [
            | inl missing ↦ (ground (arith, not_options), λ other. ground (arith, not_options))
            | inr (token, presented) ↦ elim (Result-cases (check token opts.issuer_url s).0.1) [
              | inl (claims, passed) ↦
                  absurd (
                    free claims (record { token = token; presented = presented; checked = passed }))
              | inr (e, failed) ↦
                  (ground (arith, not_options), λ other. ground (arith, not_options))
            ]
          ],
        )

-- The middleware over the validator of package jwtvalidator.
module _ {W KeySet Token N : Type 0} (http : HttpClient W) (jwx : Jwx W KeySet Token (Value N))
    (lib : Library) (opts : Options) where
  abbrev pub protect :
      Handler (Validator W) (Value N) String → Handler (Validator W) (Value N) String
  protect = new lib (validate http jwx lib) opts

  -- End to end: the answer to a request that is not OPTIONS, for a path that is not open, is 401
  -- whatever the handler, or what the handler answers to the user of claims that the validator
  -- accepted for the token in the Authorization header.
  pub protect_sound :
      (next : Handler (Validator W) (Value N) String) (r : Request (Value N)) (v : Validator W)
      → r.method ≢ "OPTIONS"
      → is_open_path r.path opts.open_paths ≡ false
      → (((protect next r v).0.status ≡ 401)
          × ((other : Handler (Validator W) (Value N) String)
              → protect next r v ≡ protect other r v))
        ⊎ ((token : String) × (claims : Dict (Value N)) × (r.header "Authorization"
              ≡ "Bearer " <> token)
            × IsAccepted http jwx lib token opts.issuer_url v claims
            × (protect next r v
                ≡ next
                    (record r { context = with_user r.context (user_from_claims claims) })
                    (validate http jwx lib token opts.issuer_url v).1))
  protect_sound next r v closed guarded =
      let check = validate http jwx lib in
      let (pass, refuse) = new_guard lib check opts r v closed guarded next in
      elim (Option-cases (extract_bearer_token r)) [
        | inl missing ↦ inl (refuse (λ claims a. cc (missing, a.presented)))
        | inr (token, presented) ↦ elim (Result-cases (check token opts.issuer_url v).0.1) [
          | inr (e, failed) ↦
              inl (refuse (λ claims a. ground (arith, presented, failed, a.presented, a.checked)))
          | inl (claims, passed) ↦ inr (
            token,
            claims,
            ((extract_bearer_token_iff r token).0 presented).0,
            validate_sound http jwx lib token opts.issuer_url v claims passed,
            pass claims (record { token = token; presented = presented; checked = passed }),
          )
        ]
      ]

  -- End to end, and exactly: a request that is not OPTIONS, for a path that is not open, reaches
  -- the handler if its Authorization header is "Bearer " and a token that is not empty and passes
  -- the validator's checks. The answer then is the handler's to the user of the token's claims, in
  -- the state that the validator left. If no such token is there, the answer is 401, and it and the
  -- state are the same whatever the handler.
  pub protect_guard :
      (next : Handler (Validator W) (Value N) String) (r : Request (Value N)) (v : Validator W)
      → r.method ≢ "OPTIONS"
      → is_open_path r.path opts.open_paths ≡ false
      → ((token : String) (claims : Dict (Value N))
          → r.header "Authorization" ≡ "Bearer " <> token
          → token ≢ ""
          → Passes http jwx lib token opts.issuer_url v claims
          → protect next r v
            ≡ next
                (record r { context = with_user r.context (user_from_claims claims) })
                (validate http jwx lib token opts.issuer_url v).1)
        × (((token : String) (claims : Dict (Value N))
              → r.header "Authorization" ≡ "Bearer " <> token
              → token ≢ ""
              → ¬ Passes http jwx lib token opts.issuer_url v claims)
            → ((protect next r v).0.status ≡ 401)
              × ((other : Handler (Validator W) (Value N) String)
                  → protect next r v ≡ protect other r v))
  protect_guard next r v closed guarded =
      let (pass, refuse) = new_guard lib (validate http jwx lib) opts r v closed guarded next in
      (
        λ token claims bearer real passes. pass claims (record {
          token = token;
          presented = (extract_bearer_token_iff r token).1 (bearer, real);
          checked = (validate_iff http jwx lib token opts.issuer_url v claims).1 passes;
        }),
        λ free. refuse (λ claims a.
            let (bearer, real) = (extract_bearer_token_iff r a.token).0 a.presented in
            free a.token claims bearer real
              ((validate_iff http jwx lib a.token opts.issuer_url v claims).0 a.checked)),
      )
