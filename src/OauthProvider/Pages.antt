-- ===== src/OauthProvider/Pages.antt =====
-- The page of a failed callback, in oauthprovider/oauthprovider.go, shows texts of the query as
-- they are.
use mcp_authkit_go.Base.{ℕ, ◌+◌, String, ◌≡◌, ◌≢◌, arith, eq_iff, ◌<>◌}
use mcp_authkit_go.Base.Text.{occurs, occurs-append}
use mcp_authkit_go.Host.{Host}
use mcp_authkit_go.Value.{Float64, Value}
use mcp_authkit_go.Middleware.{Request}
use mcp_authkit_go.OauthProvider.{
  Provider, page, write_callback_page, report_error, handle_callback,
}

module _ {W N : Type 0} (host : Host W) (float : Float64 N) (p : Provider W N) (c : ℕ) where
  -- the characters of the page around the two texts
  abbrev pub frame : ℕ
  frame =
      occurs c "<!DOCTYPE html><html><head><title>"
      + occurs c "Authorization failed"
      + occurs c "</title></head><body><h1>"
      + occurs c "Authorization failed"
      + occurs c "</h1><p>"
      + occurs c ": "
      + occurs c "</p></body></html>"

  occurs-page :
      (error description : String)
      → occurs c (page "Authorization failed" (error <> ": " <> description))
        ≡ frame + occurs c error + occurs c description
  occurs-page error description = simp (occurs-append) (omega arith)

  -- Every character of the query's error and error_description is on the page of a callback with an
  -- error: each one that stands in them, such as <, stands there once more.
  pub occurs-handle_callback :
      (r : Request (Value N)) (w : W)
      → r.query "error" ≢ ""
      → occurs c (handle_callback host float p r w).0.body
        ≡ frame + occurs c (r.query "error") + occurs c (r.query "error_description")
  unfolding handle_callback report_error write_callback_page
  occurs-handle_callback r w failed =
      let shown = occurs-page (r.query "error") (r.query "error_description") in
      ground (arith, eq_iff (r.query "error") "", shown)
