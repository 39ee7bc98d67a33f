-- ===== src/CredentialsProvider/Deliver.antt =====
-- What `HandleSubmit` of credentialsprovider/credentialsprovider.go leaves in the store of
-- credentials.
use mcp_authkit_go.Base.{String, false, some, [], ◌∷◌, ◌≡◌, arith}
use mcp_authkit_go.Base.Int.{ℤ, pos}
use mcp_authkit_go.Base.Dict.{Dict, lookup}
use mcp_authkit_go.Base.Action.{Result, ok}
use mcp_authkit_go.Host.{Library}
use mcp_authkit_go.Value.{KeepsPlain, Value, str, bool, GoMap, string_at}
use mcp_authkit_go.Store.{IsTokenStore}
use mcp_authkit_go.Middleware.{Request}
use mcp_authkit_go.Base.{none, inl, inr, ◌∙◌, sym, Option-cases}
use mcp_authkit_go.Base.Dict.{lookup-nil}
use mcp_authkit_go.CredentialsProvider.{collect, Provider, save, handle_submit}
use mcp_authkit_go.CredentialsProvider.Submit.{lookup-collect, Granted, handle_submit_guard}

module _ {W N : Type 0} (lib : Library) (p : Provider W N) where
  -- the store's call for a form
  abbrev pub stored_at :
      Request (Value N) → W → Dict (Value N) → Dict (Value N) → Result (Unit {0}) × W
  stored_at r arrival pending collected =
      p.creds_store.set (string_at "sub" pending) (some collected)
        (p.pending_store.pop (r.query "t") arrival).1

  -- the result that a waiting tool call receives, and the call that sets it
  abbrev pub done_signal : Dict (Value N) → GoMap (Value N)
  done_signal pending =
      some (("sub", str (string_at "sub" pending)) ∷ ("_elicit_sent", bool false) ∷ [])

  abbrev pub signalled_at :
      Request (Value N) → W → Dict (Value N) → Dict (Value N) → Result (Unit {0}) × W
  signalled_at r arrival pending collected =
      p.pending_store.set_result (r.query "t") (done_signal pending) (pos 120)
        (stored_at r arrival pending collected).1

  -- That call leaves the world of a form that was stored.
  pub handle_submit-signalled_at :
      (r : Request (Value N)) (w : W) (pending collected : Dict (Value N))
      → Granted lib p r w pending collected
      → (stored_at r w pending collected).0 ≡ ok tt
      → (handle_submit lib p r w).1 ≡ (signalled_at r w pending collected).1
  unfolding save
  handle_submit-signalled_at r w pending collected g put =
      let (saved, fields, good, bad) = (handle_submit_guard lib p r w).0 pending collected g in
      ground (arith, saved, put)

  module _ {kept : GoMap (Value N) → GoMap (Value N)} (creds : IsTokenStore p.creds_store kept)
      (fields_kept : KeepsPlain kept)
      (still : (k sub : String) (m : GoMap (Value N)) (ttl : ℤ) (w : W)
        → (p.creds_store.get sub (p.pending_store.set_result k m ttl w).1).0
          ≡ (p.creds_store.get sub w).0) where
    -- the form's values, as the store gives them back
    abbrev pub served : Dict (Value N) → Dict (Value N)
    served collected = (fields_kept collected).0

    -- They are texts, so they come back.
    pub lookup-served :
        (r : Request (Value N)) (collected : Dict (Value N))
        → collect lib r.form p.variables [] ≡ inr collected
        → (k : String) → lookup k (served collected) ≡ lookup k collected
    lookup-served r collected complete k =
        let (d, is, plain, free) = fields_kept collected in
        let typed = (lookup-collect lib r.form p.variables [] collected complete k).0 in
        elim (Option-cases (lookup k p.variables)) [
          | inl unlisted ↦
              let gone : lookup k collected ≡ none =
                ground (arith, typed, unlisted, lookup-nil {V = Value N} k) in
              free k gone ∙ sym gone
          | inr (x, listed) ↦
              let there : lookup k collected ≡ some (str (r.form k)) =
                ground (arith, typed, listed) in
              plain k (str (r.form k)) there tt ∙ sym there
        ]

    -- They are there for the subject of the entry after a form that was stored.
    pub handle_submit-delivers :
        (r : Request (Value N)) (w : W) (pending collected : Dict (Value N))
        → Granted lib p r w pending collected
        → (stored_at r w pending collected).0 ≡ ok tt
        → (p.creds_store.get (string_at "sub" pending) (handle_submit lib p r w).1).0
          ≡ ok (some (served collected))
    handle_submit-delivers r w pending collected g put =
        let sub = string_at "sub" pending in
        let left = handle_submit-signalled_at r w pending collected g put in
        let moved =
          still (r.query "t") sub (done_signal pending) (pos 120)
            (stored_at r w pending collected).1 in
        let back =
          creds.get-set_self sub (some collected) (p.pending_store.pop (r.query "t") w).1 put in
        ground (arith, left, moved, back, (fields_kept collected).1)
