-- ===== src/Tests/Served.antt =====
-- A server with one tool, and an SDK with one session: the first request opens it, and later ones
-- run the tool once, in the context of the first, and answer with its text.
use mcp_authkit_go.Base.{String, false, none, some, [], ◌≡◌, refl, arith, eq_iff}
use mcp_authkit_go.Base.{◌==◌, if◌then◌else◌, ◌⊎◌, ◌∷◌, inl, inr, Option, Option-cases}
use mcp_authkit_go.Base.Int.{ℤ}
use mcp_authkit_go.Base.Action.{Result, ok, err}
use mcp_authkit_go.Http.{Response}
use mcp_authkit_go.Value.{Value}
use mcp_authkit_go.Middleware.{Context, Request, Handler, new}
use mcp_authkit_go.OauthProvider.Gate
use mcp_authkit_go.OauthProvider.Gate.{ToolResult, Running}
use mcp_authkit_go.CredentialsProvider.Gate as FormGate
use mcp_authkit_go.Server.{Server, Mounted, serve, with_oauth, with_form}
use mcp_authkit_go.Server.Runs.{Run, fresh, comes, moves}
use mcp_authkit_go.Server.Legs.{with_oauth_guards, with_form_guards}
use mcp_authkit_go.Tests.Access.{network, jwx, options, call}
use mcp_authkit_go.Tests.Credentials.{form_provider}
use mcp_authkit_go.Tests.Toys.{toy_float, toy_library}
use mcp_authkit_go.Tests.World.{World, world_host, start_world, world_provider, accepts}

abbrev respond : Result ToolResult → Response String
respond (ok result) = record { status = 200; headers = []; body = result.text }
respond (err e) = record { status = 500; headers = []; body = "" }

abbrev State : Type 0
State = Server (Option (Context (Value ℤ))) World (Unit {0})

abbrev one_session : Mounted World ℤ (Unit {0}) → Handler State (Value ℤ) String
one_session tool r s = elim s.sdk [
  | none ↦
      (respond (ok (record { text = ""; is_error = false })), record s { sdk = some r.context })
  | some ctx ↦
      let (answer, t) = tool tt ctx (record { sessions = s.sessions; world = s.world }) in
      (respond answer, record s { sessions = t.sessions; world = t.world })
]

abbrev Held : Option (Context (Value ℤ)) → Context (Value ℤ) → Type 0
Held k ctx = k ≡ some ctx

in_contexts :
    (a b : Mounted World ℤ (Unit {0})) (r : Request (Value ℤ)) (s : State)
    → ((session : Unit {0}) (ctx : Context (Value ℤ)) (t : Running World (Unit {0}))
        → (ctx ≡ r.context) ⊎ (Held s.sdk ctx ⊎ (ctx.user ≡ none))
        → a session ctx t ≡ b session ctx t)
    → one_session a r s ≡ one_session b r s
in_contexts a b r s agree = elim (Option-cases s.sdk) [
  | inl opens ↦ ground (arith, opens)
  | inr (ctx, kept) ↦
      let same =
        agree tt ctx (record { sessions = s.sessions; world = s.world }) (inr (inl kept)) in
      ground (arith, kept, same)
]

abbrev start : State
start = record { sdk = none; oidc_configs = []; sessions = []; world = start_world }

-- the state in which the session is open
abbrev opened : Mounted World ℤ (Unit {0}) → State
opened tool = (serve network jwx toy_library options one_session tool call start).1

opened-Run :
    (tool : Mounted World ℤ (Unit {0}))
    → Run network jwx toy_library options Held ((call, start) ∷ []) (opened tool)
unfolding new
opened-Run tool =
    moves (opened tool) (λ ctx k. inr (inl (inl ground (arith, k))))
      (comes call refl (fresh start (λ ctx k. ground (arith, k))))

abbrev show_token : Gate.Tool world_host toy_library toy_float world_provider accepts
show_token ctx s =
    (ok (record { text = elim ctx.token [ none ↦ "" | some t ↦ t ]; is_error = false }), s)

-- It differs from the other where the token is empty, or there is none.
abbrev show_set_token : Gate.Tool world_host toy_library toy_float world_provider accepts
show_set_token ctx s = (
  ok (record {
    text = elim ctx.token [ none ↦ "none" | some t ↦ if t == "" then "empty" else t ];
    is_error = false;
  }),
  s,
)

abbrev shown : Mounted World ℤ (Unit {0})
shown = with_oauth world_host toy_library toy_float accepts false world_provider show_token

with_oauth_guards_example :
    serve network jwx toy_library options one_session shown call (opened shown)
    ≡ serve network jwx toy_library options one_session
        (with_oauth world_host toy_library toy_float accepts false world_provider show_set_token)
        call
        (opened shown)
with_oauth_guards_example =
    with_oauth_guards network jwx toy_library options one_session Held in_contexts world_host
      toy_float accepts false world_provider show_token show_set_token call (opened-Run shown) refl
      (λ q u claims token t c b o. ground (arith, o.0, eq_iff token ""))

abbrev count_fields : FormGate.Tool world_host toy_library toy_float form_provider accepts
count_fields ctx s = (ok (record { text = "none"; is_error = false }), s)

-- It differs from the other where there are no credentials.
abbrev count_set_fields : FormGate.Tool world_host toy_library toy_float form_provider accepts
count_set_fields ctx s = (
  ok (record {
    text = elim ctx.credentials [ none ↦ "missing" | some _ ↦ "none" ];
    is_error = false;
  }),
  s,
)

abbrev counted : Mounted World ℤ (Unit {0})
counted = with_form world_host toy_library toy_float accepts false form_provider count_fields

with_form_guards_example :
    serve network jwx toy_library options one_session counted call (opened counted)
    ≡ serve network jwx toy_library options one_session
        (with_form world_host toy_library toy_float accepts false form_provider count_set_fields)
        call
        (opened counted)
with_form_guards_example =
    with_form_guards network jwx toy_library options one_session Held in_contexts world_host
      toy_float accepts false form_provider count_fields count_set_fields call (opened-Run counted)
      refl (λ q u claims creds t c b k. refl)
