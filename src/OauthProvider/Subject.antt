-- ===== src/OauthProvider/Subject.antt =====
-- Whose token the callback of oauthprovider/oauthprovider.go stores.
use mcp_authkit_go.Base.{false, String, List, some, [], ◌∷◌, ◌≡◌, ◌∙◌, sym, ap}
use mcp_authkit_go.Base.Dict.{Dict}
use mcp_authkit_go.Base.Int.{ℤ, pos}
use mcp_authkit_go.Base.Action.{Error, ok, err}
use mcp_authkit_go.Host.{Host}
use mcp_authkit_go.Value.{KeepsPlain, Float64, Value, str, bool, GoMap}
use mcp_authkit_go.Store.{IsPendingStore}
use mcp_authkit_go.Store.Trace.{Call, made, AllSucceed}
use mcp_authkit_go.Store.Subject.{entry_for, later, pop_subject}
use mcp_authkit_go.Middleware.{Request}
use mcp_authkit_go.OauthProvider.{Provider, handle_callback}
use mcp_authkit_go.OauthProvider.Callback.{
  Granted, exchanged_world, entry_of, stored_at, done_signal, handle_callback_guard,
}

module _ {W N : Type 0} (host : Host W) (float : Float64 N) (p : Provider W N) {Lasts : ℤ → Type 0}
    {stored : GoMap (Value N) → GoMap (Value N)} {entry : W → String → GoMap (Value N)}
    (contract : IsPendingStore p.pending_store Lasts stored entry)
    (fields_stored : KeepsPlain stored) where
  -- the world in which the callback comes in
  abbrev pub arrived : String → String → ℤ → List (Call W (Value N)) → W → W
  arrived = later p.pending_store contract fields_stored

  -- A token is stored for the user whose call drew the state of the callback, and for nobody else:
  -- where an entry with the subject was created under a state, with a time to live that lasts, and
  -- whatever calls of the pending store followed, but none of `Create` of that state, a callback
  -- with the state that reaches the token store stores the normalised tokens under the subject. The
  -- world that it leaves is the store's, with the signal of that subject where the store took the
  -- tokens. The pending store keeps its contract and the plain fields of an entry (texts, booleans,
  -- floats and null); every `Create` succeeds, and time takes entries off at most.
  pub handle_callback_subject :
      (state sub : String) (ttl : ℤ) (cs : List (Call W (Value N))) (w : W) (r : Request (Value N))
      (pending : Dict (Value N)) (raw : GoMap (Value N))
      → Lasts ttl
      → (p.pending_store.create state (entry_for sub) ttl w).0 ≡ ok tt
      → AllSucceed p.pending_store entry cs (p.pending_store.create state (entry_for sub) ttl w).1
      → made p.pending_store state cs ≡ 0
      → r.query "state" ≡ state
      → Granted host float p r (arrived state sub ttl cs w) pending raw
      → let w' = arrived state sub ttl cs w in
        let left = (handle_callback host float p r w').1 in
        let put =
          p.token_store.set sub
            (entry_of host float p r w' raw)
            (host.now (exchanged_world host float p r w')).1 in
        (put.0 ≡ ok tt
          → left
            ≡ (p.pending_store.set_result state
                (some (("sub", str sub) ∷ ("_elicit_sent", bool false) ∷ []))
                (pos 120)
                put.1).1)
        × ((e : Error) → put.0 ≡ err e → left ≡ put.1)
  handle_callback_subject state sub ttl cs w r pending raw lasts created good none_made own g =
      let w' = arrived state sub ttl cs w in
      let popped = ap (λ k. (p.pending_store.pop k w').0) (sym own) ∙ g.popped in
      let whose =
        pop_subject p.pending_store contract fields_stored state sub ttl cs w pending lasts created
          good none_made popped in
      let (stored_so, failed_so) = (handle_callback_guard host float p r w').0 pending raw g in
      let at =
        ap
          (λ x.
            p.token_store.set x (entry_of host float p r w' raw)
              (host.now (exchanged_world host float p r w')).1)
          whose in
      (
        λ put.
            (stored_so (ap (λ x. x.0) at ∙ put)).1
            ∙ ap
                (λ x.
                  (p.pending_store.set_result x (done_signal host float p pending) (pos 120)
                    (stored_at host float p r w' pending raw).1).1)
                own
            ∙ ap
                (λ x.
                  (p.pending_store.set_result state
                    (some (("sub", str x) ∷ ("_elicit_sent", bool false) ∷ [])) (pos 120)
                    (p.token_store.set x (entry_of host float p r w' raw)
                      (host.now (exchanged_world host float p r w')).1).1).1)
                whose,
        λ e bad. (failed_so e (ap (λ x. x.0) at ∙ bad)).1 ∙ ap (λ x. x.1) at,
      )
