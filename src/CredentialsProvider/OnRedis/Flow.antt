-- ===== src/CredentialsProvider/OnRedis/Flow.antt =====
-- The blocking flow of credentialsprovider/credentialsprovider.go over the two stores of
-- store/redis.go, of one server, and the wait of that store: the form may come to another replica.
use mathlib.Core.Path.{subst}
use mcp_authkit_go.Base.Text.{occurs}
use mcp_authkit_go.Base.{
  ℕ, suc, String, true, none, some, [], ◌≡◌, ◌≢◌, ap, ◌∙◌, sym, arith, inr, length,
}
use mcp_authkit_go.Base.Dict.{Dict}
use mcp_authkit_go.Base.Int.{ℤ, pos}
use mcp_authkit_go.Base.Action.{Action, ElicitParams, message, Result, ok, err}
use mcp_authkit_go.Host.{Bytes, Host, Library, Json, IsAead, IsJson}
use mcp_authkit_go.Value.{KeepsPlain, Float64, Value, GoMap}
use mcp_authkit_go.Store.{IsPendingStore}
use mcp_authkit_go.Store.File.{safe_name}
use mcp_authkit_go.Store.File.Pending.{Pause}
use mcp_authkit_go.Store.Redis.{
  Client, RedisTokenStore, RedisPendingStore, redis_token_key, redis_pending_key, redis_done_key,
  Content, put_key, IsClient,
}
use mcp_authkit_go.Store.Redis.Pending.{is_there, wait_for_result}
use mcp_authkit_go.Store.Redis.Pending.Answer.{set_result-wait_for_result}
use mcp_authkit_go.Middleware.{Request}
use mcp_authkit_go.CredentialsProvider.{Provider, collect, handle_submit}
use mcp_authkit_go.CredentialsProvider.Submit.{Granted}
use mcp_authkit_go.CredentialsProvider.Deliver.{
  stored_at, signalled_at, done_signal, handle_submit-signalled_at,
}
use mcp_authkit_go.CredentialsProvider.Gate.{prompt}
use mcp_authkit_go.CredentialsProvider.Gate.Flow.{entry_token, drawn, created}
use mcp_authkit_go.CredentialsProvider.OnRedis.{on_redis}
use mcp_authkit_go.CredentialsProvider.OnRedis.Retry.{pending, entry}

module _ {W N : Type 0} (host : Host W) (client : Client W) (lib : Library)
    (json : Json (GoMap (Value N))) (tokens : RedisTokenStore) (pendings : RedisPendingStore)
    (float : Float64 N) (fuel : ℕ) (pause : ℤ → Action W Pause) (base : Provider W N) where
  -- time.Duration(timeoutSeconds * float64(time.Second))
  abbrev timeout_of : N → ℤ
  timeout_of seconds = float.to_int (float.times seconds (float.of_int (pos 1_000_000_000)))

  -- The wait of the store, with one round and `fuel` more; a run out of fuel is an error here.
  abbrev pub wait_on_redis : String → N → Action W (Result (GoMap (Value N)))
  wait_on_redis k seconds w =
      let (answer, w') =
        wait_for_result host client lib json pendings (suc fuel) pause k (timeout_of seconds) w in
      (elim answer [ none ↦ err (message "out of fuel") | some r ↦ r ], w')

  abbrev pub provider_on_redis : Provider W N
  provider_on_redis = on_redis host client lib json tokens pendings wait_on_redis base

  module _ {content : W → Content} (h : IsClient client content)
      (set_local : (k j : String) (b : Bytes) (d : ℤ) (w : W)
        → k ≢ j
        → content (client.set k b d w).1 j ≡ content w j)
      (random_kept : (n : ℕ) (w : W) → content (host.random n w).1 ≡ content w)
      (now_kept : (w : W) → content (host.now w).1 ≡ content w)
      (exists_lem : (k : String) (w : W) (b : Bytes)
        → content w k ≡ some b
        → is_there host client lib json pendings (client.exists k w).0 ≡ true)
      (exists_kept : (k : String) (w : W) → content (client.exists k w).1 ≡ content w)
      (colonless : (a : String) → occurs 58 (safe_name lib a) ≡ 0)
      {stored : GoMap (Value N) → GoMap (Value N)} (tokens_aead : IsAead tokens.cipher.aead)
      (pendings_aead : IsAead pendings.cipher.aead) (js : IsJson json stored)
      (fields_stored : KeepsPlain stored)
      (full : (n : ℕ) (w : W) (b : Bytes) → (host.random n w).0 ≡ ok b → length b ≡ n)
      (tokens_apart : (a b : String)
        → a ≢ b
        → redis_token_key lib tokens.prefix a ≢ redis_token_key lib tokens.prefix b)
      (pendings_apart : (a b : String)
        → a ≢ b
        → redis_pending_key lib pendings.prefix a ≢ redis_pending_key lib pendings.prefix b) where
    abbrev pub entry_here : W → String → GoMap (Value N)
    entry_here =
        entry host client lib json tokens pendings wait_on_redis base h set_local random_kept
          colonless tokens_aead pendings_aead js fields_stored full tokens_apart pendings_apart

    module _ {Session : Type 0} (elicit : Session → ElicitParams → Action W (Result String)) where
      -- How the form of a call comes in: the user accepts, and a replica has handled the submission
      -- `r`, which has the call's entry token, in a world `arrival` that still has the call's
      -- entry. The form parses and has every required field, and the server takes what it is given.
      pub record VisitHere (session : Session) (sub : String) (w : W) (r : Request (Value N))
          (arrival : W) (found collected : Dict (Value N)) : Type 0 where
        pub has_token : entry_token host lib float provider_on_redis elicit sub w ≢ ""
        pub listed : (created host lib float provider_on_redis elicit sub w).0 ≡ ok tt
        pub still_there :
            entry_here arrival (entry_token host lib float provider_on_redis elicit sub w)
            ≡ entry_here
                (created host lib float provider_on_redis elicit sub w).1
                (entry_token host lib float provider_on_redis elicit sub w)
        pub popped :
            entry_here arrival (entry_token host lib float provider_on_redis elicit sub w)
            ≡ some found
        pub accepted :
            elicit session
              (prompt host lib float provider_on_redis elicit
                (entry_token host lib float provider_on_redis elicit sub w)
                (drawn host lib float provider_on_redis elicit sub w).0)
              (created host lib float provider_on_redis elicit sub w).1
            ≡ (ok "accept", (handle_submit lib provider_on_redis r arrival).1)
        pub own_token : r.query "t" ≡ entry_token host lib float provider_on_redis elicit sub w
        pub parsed : r.form_error ≡ ok tt
        pub complete : collect lib r.form provider_on_redis.variables [] ≡ inr collected
        pub put : (stored_at lib provider_on_redis r arrival found collected).0 ≡ ok tt
        pub signalled : (signalled_at lib provider_on_redis r arrival found collected).0 ≡ ok tt

      module _ {session : Session} {sub : String} {w : W} {r : Request (Value N)} {arrival : W}
          {found collected : Dict (Value N)}
          (v : VisitHere session sub w r arrival found collected) where
        abbrev token : String
        token = entry_token host lib float provider_on_redis elicit sub w

        abbrev left : W
        left = (handle_submit lib provider_on_redis r arrival).1

        contract : IsPendingStore provider_on_redis.pending_store (λ ttl. Unit) stored entry_here
        contract =
            pending host client lib json tokens pendings wait_on_redis base h set_local random_kept
              colonless tokens_aead pendings_aead js fields_stored full tokens_apart pendings_apart

        accepted_form : Granted lib provider_on_redis r arrival found collected
        accepted_form = record {
          has_token = λ z. v.has_token (sym v.own_token ∙ z);
          popped =
              contract.pop_lem (r.query "t") arrival
              ∙ ap (λ k. ok (entry_here arrival k)) v.own_token
              ∙ ap ok v.popped;
          parsed = v.parsed;
          complete = v.complete;
        }

        -- The wait for a key finds the signal of the form in its first round, and takes it off.
        abbrev Waited : String → Type 0
        Waited k =
            let waited =
              provider_on_redis.pending_store.wait_for_result k
                (float.seconds provider_on_redis.token_timeout) left in
            (waited.0 ≡ ok (stored (done_signal lib provider_on_redis found)))
            × (content waited.1
                ≡ put_key (content left) (redis_done_key lib pendings.prefix k) none)

        waited : Waited token
        waited =
            let key = r.query "t" in
            let at =
              handle_submit-signalled_at lib provider_on_redis r arrival found collected
                accepted_form v.put in
            let (got, gone) =
              set_result-wait_for_result host client lib json pendings h pendings_aead js full
                exists_lem exists_kept now_kept key (done_signal lib provider_on_redis found)
                (pos 120) (stored_at lib provider_on_redis r arrival found collected).1 left
                v.signalled (ap (λ x. content x (redis_done_key lib pendings.prefix key)) at) fuel
                pause (timeout_of (float.seconds provider_on_redis.token_timeout)) in
            let own : Waited key = (ground (arith, got), gone) in subst Waited v.own_token own
