-- ===== src/Tests/Forms.antt =====
-- The forms and pages of the two providers at concrete inputs.
use mathlib.Core.List.{Permᴰ}
use mcp_authkit_go.Base.{◌+◌, String, true, none, [], ◌∷◌, ◌≡◌, refl, arith}
use mcp_authkit_go.Base.{◌==◌, if◌then◌else◌}
use mcp_authkit_go.Base.Int.{ℤ, pos}
use mcp_authkit_go.Base.Dict.{Dict}
use mcp_authkit_go.Base.Text.{occurs}
use mcp_authkit_go.Base.Action.{ok}
use mcp_authkit_go.Host.{Library}
use mcp_authkit_go.Value.{Value}
use mcp_authkit_go.Store.{TokenStore}
use mcp_authkit_go.CredentialsProvider.{Provider, Variable, text, handle_submit, write_entry_form}
use mcp_authkit_go.CredentialsProvider.Order.{reordered, handle_submit-Permᴰ}
use mcp_authkit_go.CredentialsProvider.Pages.{occurs-write_entry_form}
use mcp_authkit_go.OauthProvider.{handle_callback}
use mcp_authkit_go.OauthProvider.Pages.{frame, occurs-handle_callback}
use mcp_authkit_go.Tests.Names.{codes, marks, occurs-marks}
use mcp_authkit_go.Tests.Toys.{toy_float, toy_library}
use mcp_authkit_go.Tests.World.{
  World, world_host, world_pending, start_world, request, world_provider,
}

-- a store that takes everything and does not look at it
abbrev blind_store : TokenStore World (Value ℤ)
blind_store = record {
  get = λ sub w. (ok none, w);
  set = λ sub m w. (ok tt, w);
  delete = λ sub w. (ok tt, w);
}

abbrev field : String → Variable
field label = record { label = label; type = text; hint = ""; required = true }

abbrev user_then_key : Dict Variable
user_then_key = ("user", field "User") ∷ ("key", field "Key") ∷ []

abbrev key_then_user : Dict Variable
key_then_user = ("key", field "Key") ∷ ("user", field "User") ∷ []

abbrev two_fields : Provider World ℤ
two_fields = record {
  name = "git";
  variables = user_then_key;
  server_base_url = "https://here";
  creds_store = blind_store;
  pending_store = world_pending;
  doc = "";
  token_timeout = pos 300_000_000_000;
  entry_path = "/credentials/git/entry";
  submit_path = "/credentials/git/submit";
}

handle_submit-Permᴰ_example :
    let r = request (λ k. if k == "t" then "s" else "") (λ k. k) in
    let one = handle_submit toy_library two_fields r start_world in
    let other =
      handle_submit toy_library (reordered toy_library two_fields key_then_user) r start_world in
    (one.0.status ≡ other.0.status) × (one.1 ≡ other.1)
handle_submit-Permᴰ_example =
    handle_submit-Permᴰ toy_library two_fields (Permᴰ.swap refl refl) (λ sub a b w h. refl)
      (request (λ k. if k == "t" then "s" else "") (λ k. k)) start_world

-- a library whose escaping leaves the letters a and b alone
abbrev escaping : Library
escaping = record toy_library { escape_html = λ s. marks (codes s) }

clean : (s : String) → occurs 60 (escaping.escape_html s) ≡ 0
clean s = occurs-marks 60 (codes s) (λ e. omega (arith, e)) (λ e. omega (arith, e))

occurs-write_entry_form_example :
    occurs 60 (write_entry_form escaping "<" "/<" (("<k", field "<x>") ∷ []) "<i>").body
    ≡ occurs 60 (write_entry_form escaping "git" "/s" (("key", field "Key") ∷ []) "guide").body
occurs-write_entry_form_example =
    occurs-write_entry_form escaping 60 clean "<" "git" "/<" "/s" "<i>" "guide"
      (("<k", field "<x>") ∷ []) (("key", field "Key") ∷ []) ((refl, refl, refl), tt) refl

occurs-handle_callback_example :
    let r = request (λ k. if k == "error" then "<script>" else "") (λ k. "") in
    occurs 60 (handle_callback world_host toy_float world_provider r start_world).0.body
    ≡ frame world_host toy_float world_provider 60 + 1 + 0
unfolding occurs
occurs-handle_callback_example =
    occurs-handle_callback world_host toy_float world_provider 60
      (request (λ k. if k == "error" then "<script>" else "") (λ k. "")) start_world (λ e. cc)
