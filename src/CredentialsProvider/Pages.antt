-- ===== src/CredentialsProvider/Pages.antt =====
-- The pages of credentialsprovider/credentialsprovider.go hold texts of others: names, hints,
-- labels, values of a query. None of them adds markup.
use mcp_authkit_go.Base.{
  ℕ, String, [], ◌∷◌, ◌≡◌, refl, inl, inr, Bool-cases, ◌==◌, ◌<>◌, if◌then◌else◌,
}
use mcp_authkit_go.Base.Dict.{Dict}
use mcp_authkit_go.Base.Text.{occurs, occurs-append}
use mcp_authkit_go.Host.{Library}
use mcp_authkit_go.CredentialsProvider.{
  FieldType, text, password, url, textarea, unlisted, Variable, write_input, write_fields,
  write_entry_form, write_status_page,
}

-- `c` is the code of a character that html.EscapeString does not let through, as < > " & and '.
module _ (lib : Library) (c : ℕ) (clean : (s : String) → occurs c (lib.escape_html s) ≡ 0) where
  -- A status page has as many such characters whatever its texts.
  pub occurs-write_status_page :
      (status : ℕ) (title message other_title other_message : String)
      → occurs c (write_status_page lib status title message).body
        ≡ occurs c (write_status_page lib status other_title other_message).body
  unfolding write_status_page
  occurs-write_status_page status title message other_title other_message =
      simp (occurs-append, clean)

  -- Two fields that differ in their texts alone.
  abbrev pub SameField : Variable → Variable → Type 0
  SameField u v = (u.type ≡ v.type) × (u.required ≡ v.required) × ((u.hint == "") ≡ (v.hint == ""))

  abbrev pub SameForm : Dict Variable → Dict Variable → Type 0
  SameForm [] [] = Unit
  SameForm ((name, u) ∷ us) ((other, v) ∷ vs) = SameField u v × SameForm us vs
  SameForm _ _ = ⊥

  occurs-write_input :
      (type : FieldType) (name other : String) (u v : Variable)
      → u.type ≡ type
      → v.type ≡ type
      → u.required ≡ v.required
      → occurs c (write_input lib name u) ≡ occurs c (write_input lib other v)
  occurs-write_input text name other u v e f g = rw (e, f, g) (simp (occurs-append, clean))
  occurs-write_input password name other u v e f g = rw (e, f, g) (simp (occurs-append, clean))
  occurs-write_input url name other u v e f g = rw (e, f, g) (simp (occurs-append, clean))
  occurs-write_input textarea name other u v e f g = rw (e, f, g) (simp (occurs-append, clean))
  occurs-write_input (unlisted t) name other u v e f g = rw (e, f, g) (simp (occurs-append, clean))

  abbrev hint_text : String → String
  hint_text hint = if hint == "" then "" else "<small>" <> lib.escape_html hint <> "</small>"

  occurs-hint :
      (a b : String) → (a == "") ≡ (b == "") → occurs c (hint_text a) ≡ occurs c (hint_text b)
  occurs-hint a b e = elim (Bool-cases (b == "")) [
    | inl blank ↦ rw (e, blank) refl
    | inr filled ↦ rw (e, filled) (simp (occurs-append, clean))
  ]

  occurs-write_fields :
      (us vs : Dict Variable)
      → SameForm us vs
      → occurs c (write_fields lib us) ≡ occurs c (write_fields lib vs)
  unfolding write_fields
  occurs-write_fields [] [] h = refl
  occurs-write_fields [] (v ∷ vs) h = elim h [ ]
  occurs-write_fields (u ∷ us) [] h = elim h [ ]
  occurs-write_fields ((name, u) ∷ us) ((other, v) ∷ vs) (same, rest) = simp (
    occurs-append,
    clean,
    occurs-write_input v.type name other u v same.0 refl same.1,
    occurs-hint u.hint v.hint same.2,
    occurs-write_fields us vs rest,
  )

  -- The form has as many such characters whatever the names, labels, hints, guide and token are, as
  -- long as the same fields have a hint, the same types and the same requirements, and a guide is
  -- there in both or in none.
  pub occurs-write_entry_form :
      (name other_name submit other_submit doc other_doc : String) (us vs : Dict Variable)
      → SameForm us vs
      → (doc == "") ≡ (other_doc == "")
      → occurs c (write_entry_form lib name submit us doc).body
        ≡ occurs c (write_entry_form lib other_name other_submit vs other_doc).body
  unfolding write_entry_form
  occurs-write_entry_form name other_name submit other_submit doc other_doc us vs same guide =
      let fields = occurs-write_fields us vs same in
      elim (Bool-cases (other_doc == "")) [
        | inl blank ↦ rw (guide, blank) (simp (occurs-append, clean, fields))
        | inr filled ↦ rw (guide, filled) (simp (occurs-append, clean, fields))
      ]
