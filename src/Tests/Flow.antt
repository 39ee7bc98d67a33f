-- ===== src/Tests/Flow.antt =====
-- The flow of package oauthprovider at a concrete world, in which the browser comes to the callback
-- before the user's acceptance reaches the call.
use mcp_authkit_go.Base.{String, none, some, [], ◌∷◌, ◌≡◌, refl, arith}
use mcp_authkit_go.Base.{◌==◌, Option-cases, inl, inr, false, if◌then◌else◌}
use mcp_authkit_go.Base.Int.{ℤ, pos, ◌+ℤ◌, wrap_64, ◌*ℤ◌}
use mcp_authkit_go.Base.Dict.{Dict, lookup, insert}
use mcp_authkit_go.Base.Action.{Action, ElicitParams, Result, ok, err, message}
use mcp_authkit_go.Value.{Value, str, bool, GoMap, string_at}
use mcp_authkit_go.Store.{IsPendingStore}
use mcp_authkit_go.Store.Memory.{duration_seconds, clone_map, copy_entries}
use mcp_authkit_go.Store.Memory.Entries.{
  Timed, entry, Lasts, set_result-pending, memory_pending_store,
  memory_pending_store-IsPendingStore,
}
use mcp_authkit_go.OauthProvider.{pending_ttl}
use mcp_authkit_go.Store.Memory.Tokens.{get, set}
use mcp_authkit_go.Store.Memory.Pending.{
  create, pop, set_result, find_or_make, fire, wait_begin, wait_receive, wait_consume,
}
use mcp_authkit_go.Middleware.{Request, user_from_context}
use mcp_authkit_go.OauthProvider.{
  generate_id, accept_code, exchange, normalize_token_data, to_float, refresh, use_token,
  get_or_refresh_token, handle_callback,
}
use mcp_authkit_go.OauthProvider.Gate.{
  Running, with_token, Tool, ensure_token_blocking, require_token,
}
use mcp_authkit_go.OauthProvider.Gate.Flow.{created, Visit, require_token-Visit}
use mcp_authkit_go.Tests.Toys.{toy_float, toy_library}
use mcp_authkit_go.Tests.World.{
  World, world_host, world_pending, world_tokens-IsTokenStore, plain_twice, start_world, as_u,
  user_u, request, answer_of, world_provider,
}

-- what the pending store of a world hands out, on a clock that stands at 0
abbrev timed : World → Timed (Value ℤ)
timed w = record { clock = 0; store = w.pending }

abbrev pub entry_in : World → String → GoMap (Value ℤ)
entry_in w = entry (timed w)

pub world_pending-IsPendingStore :
    IsPendingStore world_pending Lasts (λ m. clone_map (clone_map m)) entry_in
world_pending-IsPendingStore =
    let memory =
      memory_pending_store-IsPendingStore {V = Value ℤ} {N = ℤ} (λ w. (err (message "blocked"), w))
        (λ k n w. (ok none, w)) (λ w k. refl) in
    record {
      pop_lem = λ k w. memory.pop_lem k (timed w);
      entry-pop = λ k j w. memory.entry-pop k j (timed w);
      entry-create_self = λ k m ttl w l e. memory.entry-create_self k m ttl (timed w) l e;
      entry-create_ne = λ k j m ttl w ne e. memory.entry-create_ne k j m ttl (timed w) ne e;
      entry-set_result = λ k j m ttl w. elim (Option-cases (set_result k m w.pending)) [
        | inl blocked ↦ ground arith
        | inr (s, sent) ↦ ground (arith, set_result-pending k m w.pending s sent)
      ];
    }

pub lasts : Lasts (pending_ttl world_host toy_float world_provider)
unfolding wrap_64 ◌+ℤ◌
lasts = omega arith

abbrev state_of_call : String
state_of_call = (generate_id world_host toy_library 24 start_world).0

abbrev asks : String → String
asks k = if k == "code" then "c" else if k == "state" then state_of_call else ""

abbrev own_callback : Request (Value ℤ)
own_callback = request asks (λ k. "")

-- the browser comes first, and then the user's answer
abbrev browses : Unit {0} → ElicitParams → Action World (Result String)
browses session ask w =
    (ok "accept", (handle_callback world_host toy_float world_provider own_callback w).1)

abbrev arrival : World
arrival = (created world_host toy_library toy_float world_provider browses "u" start_world).1

abbrev pending_u : Dict (Value ℤ)
pending_u = ("sub", str "u") ∷ []

visit :
    Visit world_host toy_library toy_float world_provider browses entry_in tt "u" start_world
      own_callback arrival answer_of "t"
      (pos 100)
      pending_u
unfolding pop clone_map copy_entries insert lookup create set get set_result find_or_make fire ◌+ℤ◌
    string_at to_float duration_seconds wrap_64 ◌*ℤ◌ generate_id handle_callback wait_begin
    wait_receive wait_consume accept_code exchange normalize_token_data
visit = record {
  has_state = λ e. cc;
  listed = refl;
  still_there = refl;
  popped = refl;
  accepted = refl;
  no_error = refl;
  has_code = λ e. cc;
  own_state = refl;
  exchanged = refl;
  access = refl;
  until = refl;
  put = refl;
  woken = (("_elicit_sent", bool false) ∷ ("sub", str "u") ∷ [], refl);
  current = refl;
}

pub still :
    (k sub : String) (m : GoMap (Value ℤ)) (ttl : ℤ) (w : World)
    → (get_or_refresh_token world_host toy_float world_provider sub
        (world_pending.set_result k m ttl w).1).0
      ≡ (get_or_refresh_token world_host toy_float world_provider sub w).0
unfolding get_or_refresh_token use_token refresh
still k sub m ttl w = ground arith

waits :
    (k sub : String) (n : ℤ) (w : World)
    → (get_or_refresh_token world_host toy_float world_provider sub
        (world_pending.wait_for_result k n w).1).0
      ≡ (get_or_refresh_token world_host toy_float world_provider sub w).0
unfolding get_or_refresh_token use_token refresh
waits k sub n w = ground arith

abbrev running : Running World (Unit {0})
running = record { sessions = []; world = start_world }

abbrev tell_token : Tool world_host toy_library toy_float world_provider browses
tell_token ctx s =
    (ok (record { text = elim ctx.token [ none ↦ "" | some t ↦ t ]; is_error = false }), s)

require_token-Visit_example :
    require_token world_host toy_library toy_float world_provider browses false tt tell_token as_u
      running
    ≡ tell_token
        (with_token as_u "t")
        (ensure_token_blocking world_host toy_library toy_float world_provider browses tt "u"
          running).1
unfolding get_or_refresh_token use_token refresh get lookup user_from_context
require_token-Visit_example =
    require_token-Visit world_host toy_library toy_float world_provider browses
      world_tokens-IsTokenStore plain_twice world_pending-IsPendingStore plain_twice lasts visit
      still waits tell_token as_u user_u running refl refl refl (λ e. cc)

memory_pending_store-IsPendingStore_example :
    IsPendingStore
      (memory_pending_store {V = Value ℤ} {N = ℤ}
        (λ w. (err (message "blocked"), w))
        (λ k n w. (ok none, w)))
      Lasts
      (λ m. clone_map (clone_map m))
      entry
memory_pending_store-IsPendingStore_example =
    memory_pending_store-IsPendingStore {V = Value ℤ} {N = ℤ} (λ w. (err (message "blocked"), w))
      (λ k n w. (ok none, w)) (λ w k. refl)
