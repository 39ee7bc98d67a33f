-- ===== src/CredentialsProvider/Form.antt =====
-- credentialsprovider/credentialsprovider.go: the fields of a form, and the pages.
use mcp_authkit_go.Base.{ℕ, String, Bool, true, false, [], ◌∷◌}
use mcp_authkit_go.Base.{◌==◌, ◌<>◌, if◌then◌else◌}
use mcp_authkit_go.Base.Dict.{Dict}
use mcp_authkit_go.Host.{Library}
use mcp_authkit_go.Http.{Response}

-- FieldType is a string; the four constants, and any other text.
pub data FieldType : Type 0 where
  text : FieldType
  password : FieldType
  url : FieldType
  textarea : FieldType
  unlisted : String → FieldType

pub record Variable : Type 0 where
  pub label : String
  pub type : FieldType
  pub hint : String
  pub required : Bool

unfoldable pub new_variable : String → FieldType → Variable
new_variable label field_type = record {
  label = label;
  type = field_type;
  hint = "";
  required = true;
}

abbrev pub html_headers : Dict String
html_headers = ("Content-Type", "text/html; charset=utf-8") ∷ []

abbrev pub required_attr : Bool → String
required_attr true = " required"
required_attr false = ""

module _ (lib : Library) where
  unfoldable pub write_status_page : ℕ → String → String → Response String
  write_status_page status title message = record {
    status = status;
    headers = html_headers;
    body =
        "<!DOCTYPE html><html><head><title>"
        <> lib.escape_html title
        <> "</title></head><body><h1>"
        <> lib.escape_html title
        <> "</h1><p>"
        <> lib.escape_html message
        <> "</p></body></html>";
  }

  abbrev pub input_type : FieldType → String
  input_type password = "password"
  input_type url = "url"
  input_type _ = "text"

  abbrev pub write_input : String → Variable → String
  write_input field_name v = elim v.type [
    | textarea ↦
        "<textarea name=\""
        <> lib.escape_html field_name
        <> "\" autocomplete=\"off\""
        <> required_attr v.required
        <> "></textarea>"
    | type ↦
        "<input type=\""
        <> input_type type
        <> "\" name=\""
        <> lib.escape_html field_name
        <> "\" autocomplete=\"off\""
        <> required_attr v.required
        <> ">"
  ]

  -- the loop over the variables
  unfoldable pub write_fields : Dict Variable → String
  write_fields [] = ""
  write_fields ((field_name, v) ∷ variables) =
      "<label>"
      <> lib.escape_html v.label
      <> "</label>"
      <> write_input field_name v
      <> (if v.hint == "" then "" else "<small>" <> lib.escape_html v.hint <> "</small>")
      <> write_fields variables

  unfoldable pub write_entry_form : String → String → Dict Variable → String → Response String
  unfolding write_fields
  write_entry_form name submit_url variables doc = record {
    status = 200;
    headers = html_headers;
    body =
        "<!DOCTYPE html><html><head><title>"
        <> lib.escape_html name
        <> " credentials</title></head><body><h1>"
        <> lib.escape_html name
        <> " credentials</h1>"
        <> "<p>Your credentials are stored securely on the MCP server and are never exposed to the AI assistant.</p>"
        <> (if doc == "" then "" else "<pre>" <> lib.escape_html doc <> "</pre>")
        <> "<form method=\"POST\" action=\""
        <> lib.escape_html submit_url
        <> "\">"
        <> write_fields variables
        <> "<button type=\"submit\">Save</button></form></body></html>";
  }
