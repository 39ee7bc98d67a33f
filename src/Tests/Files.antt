-- ===== src/Tests/Files.antt =====
-- The pending store of store/file.go, at a file system that is a function.
use package.text.Mathlib.TextLemmas.{cons-append, append_cancel_left}
use mcp_authkit_go.Base.{String, false, none, ◌≡◌, ◌≢◌, arith, eq_iff, sym, ◌∙◌, ap, inl, inr}
use mcp_authkit_go.Base.{Bool-cases, ◌==◌, ◌<>◌}
use mcp_authkit_go.Base.{ℕ, List}
use mcp_authkit_go.Base.Int.{ℤ}
use mcp_authkit_go.Base.Text.{occurs, occurs-append}
use mcp_authkit_go.Base.Action.{Action, Result, ok}
use mcp_authkit_go.Host.{Files}
use mcp_authkit_go.Value.{Value, GoMap}
use mcp_authkit_go.Store.File.{safe_name, meta_path, done_path}
use mcp_authkit_go.Tests.Names.{codes, marks, heads, occurs-marks}
use mcp_authkit_go.Tests.Polling.{pending_files}
use mcp_authkit_go.Tests.Toys.{toy_library, is_toy_temp}

abbrev pub no_wait : String → ℤ → Action Files (Result (GoMap (Value ℤ)))
no_wait k n w = (ok none, w)

-- no path in the directory is that of a temporary file
pub plain : (name : String) → is_toy_temp ("pending" <> "/" <> name) ≡ false
plain name =
    let path = "/" <> name in
    elim (Bool-cases ("pending" <> path == "~")) [
      | inr other ↦ other
      | inl same ↦
          let e = (eq_iff ("pending" <> path) "~").0 same in
          absurd (omega (arith, heads (sym (cons-append "p" "ending" path) ∙ e)))
    ]

no_d : (l : List ℕ) → occurs 100 (marks l) ≡ 0
no_d l = occurs-marks 100 l (λ e. omega (arith, e)) (λ e. omega (arith, e))

-- A name that ends in .done.enc has a d.
pub ends_apart :
    (k j : String) → meta_path toy_library pending_files k ≢ done_path toy_library pending_files j
unfolding safe_name occurs
ends_apart k j e =
    let a = marks (codes k) in
    let b = marks (codes j) in
    let names =
      append_cancel_left "/" (a <> ".enc") (b <> ".done.enc")
        (append_cancel_left "pending" ("/" <> a <> ".enc") ("/" <> b <> ".done.enc") e) in
    let none_left : occurs 100 a ≡ 0 = no_d (codes k) in
    let none_right : occurs 100 b ≡ 0 = no_d (codes j) in
    omega (
      arith,
      ap (occurs 100) names,
      occurs-append 100 a ".enc",
      occurs-append 100 b ".done.enc",
      none_left,
      none_right,
    )
