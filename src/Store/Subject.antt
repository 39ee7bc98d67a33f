-- ===== src/Store/Subject.antt =====
-- Whose entry a pending store of store/store.go hands out: both providers put the subject of the
-- user into it, and nothing else.
use mcp_authkit_go.Base.{String, List, some, [], ◌∷◌, ◌≡◌, arith, inl, inr}
use mcp_authkit_go.Base.Dict.{Dict}
use mcp_authkit_go.Base.Int.{ℤ}
use mcp_authkit_go.Base.Action.{ok}
use mcp_authkit_go.Value.{KeepsPlain, Value, str, GoMap, string_at, string_at-kept}
use mcp_authkit_go.Store.{PendingStore, IsPendingStore}
use mcp_authkit_go.Store.Trace.{Call, run, made, AllSucceed, run-IsKeptOrGone}

-- what both providers put into the entry of a call
abbrev pub entry_for : {N : Type 0} → String → GoMap (Value N)
entry_for sub = some (("sub", str sub) ∷ [])

module _ {W N : Type 0} (P : PendingStore W N (Value N)) {Lasts : ℤ → Type 0}
    {stored : GoMap (Value N) → GoMap (Value N)} {entry : W → String → GoMap (Value N)}
    (contract : IsPendingStore P Lasts stored entry) (fields_stored : KeepsPlain stored) where
  -- the world after an entry was created and the calls `cs` were made
  abbrev pub later : String → String → ℤ → List (Call W (Value N)) → W → W
  later key sub ttl cs w = run P cs (P.create key (entry_for sub) ttl w).1

  -- What a `Pop` of the key then hands out has the subject that was put in.
  pub pop_subject :
      (key sub : String) (ttl : ℤ) (cs : List (Call W (Value N))) (w : W) (pending : Dict (Value N))
      → Lasts ttl
      → (P.create key (entry_for sub) ttl w).0 ≡ ok tt
      → AllSucceed P entry cs (P.create key (entry_for sub) ttl w).1
      → made P key cs ≡ 0
      → (P.pop key (later key sub ttl cs w)).0 ≡ ok (some pending)
      → string_at "sub" pending ≡ sub
  pop_subject key sub ttl cs w pending lasts created good none_made popped =
      let put = contract.entry-create_self key (entry_for sub) ttl w lasts created in
      let got = contract.pop_lem key (later key sub ttl cs w) in
      elim (run-IsKeptOrGone P key contract cs (P.create key (entry_for sub) ttl w).1 good
        none_made) [
          | inl gone ↦ absurd (ground arith)
          | inr kept ↦ string_at-kept stored "sub" sub pending fields_stored (ground arith)
        ]
