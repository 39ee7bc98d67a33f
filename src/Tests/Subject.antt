-- ===== src/Tests/Subject.antt =====
-- Whose token and credentials are stored, at a world of the two memory stores.
use mcp_authkit_go.Base.{String, List, some, false, [], ◌∷◌, ◌≡◌, refl, arith}
use mcp_authkit_go.Base.{◌==◌, if◌then◌else◌}
use mcp_authkit_go.Base.Dict.{lookup, insert, remove}
use mcp_authkit_go.Base.Int.{ℤ, pos, ◌+ℤ◌, wrap_64, ◌*ℤ◌}
use mcp_authkit_go.Base.Action.{Error, ok, err}
use mcp_authkit_go.Value.{Value, str, bool}
use mcp_authkit_go.Store.Memory.{duration_seconds, clone_map, copy_entries}
use mcp_authkit_go.Store.Memory.Pending.{create, pop}
use mcp_authkit_go.Store.Trace.{Call, run, run_call, made}
use mcp_authkit_go.Middleware.{Request}
use mcp_authkit_go.OauthProvider.{handle_callback}
use mcp_authkit_go.OauthProvider.Callback.{Granted, entry_of, exchanged_world}
use mcp_authkit_go.OauthProvider.Subject.{arrived, handle_callback_subject}
use mcp_authkit_go.CredentialsProvider.{collect, handle_submit}
use mcp_authkit_go.CredentialsProvider.Submit
use mcp_authkit_go.CredentialsProvider.Subject
use mcp_authkit_go.CredentialsProvider.Subject.{handle_submit_subject}
use mcp_authkit_go.Tests.Credentials.{form_provider}
use mcp_authkit_go.Tests.Flow.{world_pending-IsPendingStore}
use mcp_authkit_go.Tests.Toys.{toy_float, toy_library}
use mcp_authkit_go.Tests.World.{
  World, world_host, plain_twice, start_world, request, answer_of, world_provider,
}

abbrev asks_back : String → String
asks_back k = if k == "code" then "c" else if k == "state" then "drawn" else ""

abbrev callback : Request (Value ℤ)
callback = request asks_back (λ k. "")

-- another user's entry comes and goes
abbrev others : List (Call World (Value ℤ))
others = Call.create "o" (some (("sub", str "other") ∷ [])) (pos 5) ∷ Call.pop "o" ∷ []

abbrev at_callback : World
at_callback =
    arrived world_host toy_float world_provider world_pending-IsPendingStore plain_twice "drawn" "u"
      (pos 5) others start_world

granted :
    Granted world_host toy_float world_provider callback at_callback
      (("sub", str "u") ∷ [])
      answer_of
unfolding pop clone_map copy_entries insert lookup run run_call create remove duration_seconds
    wrap_64 ◌*ℤ◌ ◌+ℤ◌
granted = record {
  no_error = refl;
  has_code = λ e. cc;
  has_state = λ e. cc;
  popped = refl;
  exchanged = refl;
}

handle_callback_subject_example :
    let left = (handle_callback world_host toy_float world_provider callback at_callback).1 in
    let put =
      world_provider.token_store.set "u"
        (entry_of world_host toy_float world_provider callback at_callback answer_of)
        (world_host.now
          (exchanged_world world_host toy_float world_provider callback at_callback)).1 in
    (put.0 ≡ ok tt
      → left
        ≡ (world_provider.pending_store.set_result "drawn"
            (some (("sub", str "u") ∷ ("_elicit_sent", bool false) ∷ []))
            (pos 120)
            put.1).1)
    × ((e : Error) → put.0 ≡ err e → left ≡ put.1)
unfolding create pop made
handle_callback_subject_example =
    handle_callback_subject world_host toy_float world_provider world_pending-IsPendingStore
      plain_twice "drawn" "u" (pos 5) others start_world callback (("sub", str "u") ∷ []) answer_of
      (omega arith) refl (refl, (tt, tt)) refl refl granted

abbrev form : Request (Value ℤ)
form = request (λ k. if k == "t" then "drawn" else "") (λ k. if k == "key" then "x" else "")

abbrev at_submit : World
at_submit =
    Subject.arrived toy_library form_provider world_pending-IsPendingStore plain_twice "drawn" "u"
      (pos 5) others start_world

complete :
    Submit.Granted toy_library form_provider form at_submit
      (("sub", str "u") ∷ [])
      (("key", str "x") ∷ [])
unfolding pop clone_map copy_entries insert lookup run run_call create remove duration_seconds
    wrap_64 ◌*ℤ◌ ◌+ℤ◌ collect
complete = record { has_token = λ e. cc; popped = refl; parsed = refl; complete = refl }

handle_submit_subject_example :
    let answer = handle_submit toy_library form_provider form at_submit in
    let put =
      form_provider.creds_store.set "u"
        (some (("key", str "x") ∷ []))
        (form_provider.pending_store.pop "drawn" at_submit).1 in
    (put.0 ≡ ok tt
      → (answer.0.status ≡ 200)
        × (answer.1
            ≡ (form_provider.pending_store.set_result "drawn"
                (some (("sub", str "u") ∷ ("_elicit_sent", bool false) ∷ []))
                (pos 120)
                put.1).1))
    × ((e : Error) → put.0 ≡ err e → (answer.0.status ≡ 500) × (answer.1 ≡ put.1))
unfolding create pop made
handle_submit_subject_example =
    handle_submit_subject toy_library form_provider world_pending-IsPendingStore plain_twice "drawn"
      "u" (pos 5) others start_world form (("sub", str "u") ∷ []) (("key", str "x") ∷ [])
      (omega arith) refl (refl, (tt, tt)) refl refl complete
