-- ===== src/Store/Trace.antt =====
-- Runs of calls of a pending store of store/store.go, by any number of clients one after the other,
-- with time between them.
use mcp_authkit_go.Base.{
  ℕ, ◌+◌, ◌≤◌, String, none, some, List, [], ◌∷◌, ◌≡◌, ap, arith, eq_iff, inl, inr,
}
use mcp_authkit_go.Base.{Bool-cases, ◌==◌, if◌then◌else◌}
use mcp_authkit_go.Base.{◌⊎◌, refl, ◌∙◌}
use mcp_authkit_go.Base.Int.{ℤ}
use mcp_authkit_go.Base.Action.{Result, ok, err}
use mcp_authkit_go.Value.{GoMap}
use mcp_authkit_go.Store.{PendingStore, IsPendingStore}

-- What changes the entries of a pending store: a call with its arguments, and time.
pub data Call (W V : Type 0) : Type 0 where
  create : String → GoMap V → ℤ → Call W V
  pop : String → Call W V
  set_result : String → GoMap V → ℤ → Call W V
  -- time goes by, until the world is as given
  meanwhile : W → Call W V

-- 1 for an entry, 0 for nil
abbrev pub held : {V : Type 0} → GoMap V → ℕ
held none = 0
held (some _) = 1

held_le : {V : Type 0} (m : GoMap V) → held m ≤ 1
held_le none = omega arith
held_le (some _) = omega arith

-- Nothing is left of an entry, or all of it.
abbrev pub IsKeptOrGone : {V : Type 0} → GoMap V → GoMap V → Type 0
IsKeptOrGone after before = (after ≡ none) ⊎ (after ≡ before)

abbrev handed_by : {V : Type 0} → Result (GoMap V) → ℕ
handed_by (ok m) = held m
handed_by (err _) = 0

module _ {W N V : Type 0} (P : PendingStore W N V) where
  unfoldable pub run_call : Call W V → W → W
  run_call (create k m ttl) w = (P.create k m ttl w).1
  run_call (pop k) w = (P.pop k w).1
  run_call (set_result k m ttl) w = (P.set_result k m ttl w).1
  run_call (meanwhile w') w = w'

  unfoldable pub run : List (Call W V) → W → W
  unfolding run_call
  run [] w = w
  run (c ∷ cs) w = run cs (run_call c w)

  -- Every `Create` of the run succeeds, and time takes entries off at most, as those that expire.
  module _ (entry : W → String → GoMap V) where
    abbrev pub Succeeds : Call W V → W → Type 0
    Succeeds (create k m ttl) w = (P.create k m ttl w).0 ≡ ok tt
    Succeeds (meanwhile w') w = (k : String) → IsKeptOrGone (entry w' k) (entry w k)
    Succeeds _ w = Unit

    abbrev pub AllSucceed : List (Call W V) → W → Type 0
    AllSucceed [] w = Unit
    AllSucceed (c ∷ cs) w = Succeeds c w × AllSucceed cs (run_call c w)

  module _ (k : String) where
    -- how many entries of the key a call hands out, and creates
    abbrev pub handed_once : Call W V → W → ℕ
    handed_once (pop j) w = if j == k then handed_by (P.pop j w).0 else 0
    handed_once _ w = 0

    abbrev pub made_once : Call W V → ℕ
    made_once (create j m ttl) = if j == k then 1 else 0
    made_once _ = 0

    unfoldable pub handed : List (Call W V) → W → ℕ
    handed [] w = 0
    handed (c ∷ cs) w = handed_once c w + handed cs (run_call c w)

    unfoldable pub made : List (Call W V) → ℕ
    made [] = 0
    made (c ∷ cs) = made_once c + made cs

    module _ {Lasts : ℤ → Type 0} {stored : GoMap V → GoMap V} {entry : W → String → GoMap V}
        (h : IsPendingStore P Lasts stored entry) where
      -- A call hands out what it takes off.
      call_balance :
          (c : Call W V) (w : W)
          → Succeeds entry c w
          → handed_once c w + held (entry (run_call c w) k) ≤ made_once c + held (entry w k)
      unfolding run_call
      call_balance (create j m ttl) w good = elim (Bool-cases (j == k)) [
        | inl same ↦ rw same (omega (arith, held_le (entry (P.create j m ttl w).1 k)))
        | inr other ↦
            let at = h.entry-create_ne j k m ttl w (λ e. ground (arith, eq_iff j k)) good in
            rw (at, other) (omega arith)
      ]
      call_balance (pop j) w good =
          let at = h.entry-pop j k w in
          elim (Bool-cases (j == k)) [
            | inl same ↦
                let here = ap (entry w) ((eq_iff j k).0 same) in
                rw (at, same, h.pop_lem j w, here) (omega arith)
            | inr other ↦ rw (at, other) (omega arith)
          ]
      call_balance (set_result j m ttl) w good =
          let at = h.entry-set_result j k m ttl w in rw at (omega arith)
      call_balance (meanwhile w') w good = elim (good k) [
        | inl gone ↦ rw gone (omega arith)
        | inr kept ↦ rw kept (omega arith)
      ]

      -- In a run of `Create`, `Pop` and `SetResult` calls in which every `Create` succeeds, with
      -- time between them that takes entries off at most: the entries of a key that are handed out,
      -- and the one that is left, are no more than those created and the one that was there.
      pub handed_le_made :
          (cs : List (Call W V)) (w : W)
          → AllSucceed entry cs w
          → handed cs w + held (entry (run cs w) k) ≤ made cs + held (entry w k)
      unfolding handed made run
      handed_le_made [] w good = omega arith
      handed_le_made (c ∷ cs) w (first, others) =
          omega (arith, call_balance c w first, handed_le_made cs (run_call c w) others)

      call-IsKeptOrGone :
          (c : Call W V) (w : W)
          → Succeeds entry c w
          → made_once c ≡ 0
          → IsKeptOrGone (entry (run_call c w) k) (entry w k)
      unfolding run_call
      call-IsKeptOrGone (create j m ttl) w good none_made = elim (Bool-cases (j == k)) [
        | inl same ↦ absurd (ground arith)
        | inr other ↦ inr (h.entry-create_ne j k m ttl w (λ e. ground (arith, eq_iff j k)) good)
      ]
      call-IsKeptOrGone (pop j) w good none_made =
          let at = h.entry-pop j k w in
          elim (Bool-cases (j == k)) [
            | inl same ↦ inl (ground (arith, at, same))
            | inr other ↦ inr (ground (arith, at, other))
          ]
      call-IsKeptOrGone (set_result j m ttl) w good none_made = inr (h.entry-set_result j k m ttl w)
      call-IsKeptOrGone (meanwhile w') w good none_made = good k

      -- An entry is never replaced by another, but by a `Create` of its key: after a run with none
      -- of it, in which every `Create` succeeds and time takes entries off at most, the key holds
      -- what it held, or nothing.
      pub run-IsKeptOrGone :
          (cs : List (Call W V)) (w : W)
          → AllSucceed entry cs w
          → made cs ≡ 0
          → IsKeptOrGone (entry (run cs w) k) (entry w k)
      unfolding made run
      run-IsKeptOrGone [] w good none_made = inr refl
      run-IsKeptOrGone (c ∷ cs) w (first, others) none_made =
          let now = call-IsKeptOrGone c w first (omega (arith, none_made)) in
          elim (run-IsKeptOrGone cs (run_call c w) others (omega (arith, none_made))) [
            | inl gone ↦ inl gone
            | inr kept ↦ elim now [ inl gone ↦ inl (kept ∙ gone) | inr same ↦ inr (kept ∙ same) ]
          ]
