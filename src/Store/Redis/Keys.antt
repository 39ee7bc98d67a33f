-- ===== src/Store/Redis/Keys.antt =====
-- Which Redis keys of store/redis.go can be equal.
use Prim.Native.Char.{Char, code}
use Prim.Native.String.{count}
use text.Mathlib.TextLemmas.{
  append_inj, append_cancel_left, append_cancel_right, append_assoc, length-append, length-cons,
  cons-append, nil-append, head-eq_of_cons-eq,
}
use mcp_authkit_go.Base.{String, ◌≡◌, ◌≢◌, sym, ap, ◌∙◌, ◌<>◌, arith, eq_iff, ◌==◌, if◌then◌else◌}
use mcp_authkit_go.Base.Text.{occurs, after_last}
use mcp_authkit_go.Host.{Library}
use mcp_authkit_go.Store.Encryption.{Cipher}
use mcp_authkit_go.Store.File.{safe_name}
use mcp_authkit_go.Store.Redis.{
  new_redis_token_store, redis_token_key, redis_pending_key, redis_done_key, trim_suffix_colon,
  default_redis_key_prefix,
}

-- A key ends in its hash: texts with hashes of one length after them are equal in both parts.
split_hash : (a b x y : String) → count x ≡ count y → a <> x ≡ b <> y → (a ≡ b) × (x ≡ y)
split_hash a b x y same e =
    append_inj e (omega (arith, ap count e, length-append a x, length-append b y))

-- The prefix of a token store with a namespace.
abbrev within : String → String → String
within base n = base <> ":" <> n <> ":"

-- Such prefixes are equal only for one namespace.
namespace_of :
    (base m n x y : String)
    → count x ≡ count y
    → within base m <> "token:" <> x ≡ within base n <> "token:" <> y
    → m ≡ n
namespace_of base m n x y same e =
    let (front, _) = split_hash (within base m <> "token:") (within base n <> "token:") x y same (
      append_assoc (within base m) "token:" x
      ∙ e
      ∙ sym (append_assoc (within base n) "token:" y)) in
    let whole = append_cancel_right (within base m) (within base n) "token:" front in
    append_cancel_right m n ":" (
      append_cancel_left ":" (m <> ":") (n <> ":")
        (append_cancel_left base (":" <> m <> ":") (":" <> n <> ":") whole))

-- Texts that begin with different characters after a common prefix are different.
heads_apart :
    (prefix : String) (c d : Char) (s t x y : String)
    → code c ≢ code d
    → prefix <> String.◌∷◌ c s <> x ≢ prefix <> String.◌∷◌ d t <> y
heads_apart prefix c d s t x y ne e =
    let same = append_cancel_left prefix (String.◌∷◌ c s <> x) (String.◌∷◌ d t <> y) e in
    ne (ap code (head-eq_of_cons-eq (sym (cons-append c s x) ∙ same ∙ cons-append d t y)))

module _ (lib : Library) (prefix : String) where
  namespaced :
      (c : Cipher) (n : String)
      → n ≢ ""
      → (new_redis_token_store prefix n c).prefix
        ≡ within (trim_suffix_colon (if prefix == "" then default_redis_key_prefix else prefix)) n
  unfolding new_redis_token_store
  namespaced c n set = ground (arith, eq_iff n "")

  -- Token stores of two different namespaces, none of them empty, never use one key for two
  -- subjects whose hashes have one length.
  pub namespaces_apart :
      (c : Cipher) (m n a b : String)
      → m ≢ ""
      → n ≢ ""
      → m ≢ n
      → count (safe_name lib a) ≡ count (safe_name lib b)
      → redis_token_key lib (new_redis_token_store prefix m c).prefix a
        ≢ redis_token_key lib (new_redis_token_store prefix n c).prefix b
  unfolding redis_token_key
  namespaces_apart c m n a b m_set n_set ne same e = ne (
      namespace_of _ m n _ _ same (
        sym (ap (λ p. p <> "token:" <> safe_name lib a) (namespaced c m m_set))
        ∙ e
        ∙ ap (λ p. p <> "token:" <> safe_name lib b) (namespaced c n n_set)))

  -- Token, pending and done keys under one prefix are never equal.
  pub kinds_apart :
      (a b : String)
      → (redis_token_key lib prefix a ≢ redis_pending_key lib prefix b)
        × (redis_token_key lib prefix a ≢ redis_done_key lib prefix b)
        × (redis_pending_key lib prefix a ≢ redis_done_key lib prefix b)
  unfolding redis_token_key redis_pending_key redis_done_key
  kinds_apart a b = (
    λ e. heads_apart prefix _ _ _ _ _ _ (λ x. omega (arith, x)) e,
    λ e. heads_apart prefix _ _ _ _ _ _ (λ x. omega (arith, x)) e,
    λ e. heads_apart prefix _ _ _ _ _ _ (λ x. omega (arith, x)) e,
  )

-- The key ends after its last colon.
colon_last :
    (a b x y : String)
    → occurs 58 x ≡ 0
    → occurs 58 y ≡ 0
    → (a <> ":") <> x ≡ (b <> ":") <> y
    → x ≡ y
colon_last a b x y f g e = after_last ":" a b x y f g (sym (after a x) ∙ e ∙ after b y)
  where
    after : (s t : String) → (s <> ":") <> t ≡ s <> String.◌∷◌ ":" t
    after s t =
        append_assoc s ":" t
        ∙ ap (λ z. s <> z) (cons-append ":" "" t ∙ ap (String.◌∷◌ ":") (nil-append t))

-- Keys whose kinds end in different characters, in front of a colon and a hash, are different,
-- where no hash holds a colon.
ends_apart :
    (x y : String) (c d : Char) (a b : String)
    → occurs 58 a ≡ 0
    → occurs 58 b ≡ 0
    → code c ≢ code d
    → (x <> String.◌∷◌ c ":") <> a ≢ (y <> String.◌∷◌ d ":") <> b
ends_apart x y c d a b f g ne e =
    let same = ap count (
      colon_last (x <> String.◌∷◌ c "") (y <> String.◌∷◌ d "") a b f g
        (ap (λ z. z <> a) (onto x c) ∙ e ∙ sym (ap (λ z. z <> b) (onto y d)))) in
    let (front, _) = split_hash (x <> String.◌∷◌ c ":") (y <> String.◌∷◌ d ":") a b same e in
    let (_, tail) =
      split_hash x y (String.◌∷◌ c ":") (String.◌∷◌ d ":")
        (omega (arith, length-cons c ":", length-cons d ":")) front in
    ne (ap code (head-eq_of_cons-eq tail))
  where
    onto : (z : String) (k : Char) → (z <> String.◌∷◌ k "") <> ":" ≡ z <> String.◌∷◌ k ":"
    onto z k =
        append_assoc z (String.◌∷◌ k "") ":"
        ∙ ap (λ t. z <> t) (cons-append k "" ":" ∙ ap (String.◌∷◌ k) (nil-append ":"))

-- A token key is never equal to a pending key, nor to a done key, whatever the two prefixes, where
-- no hash holds a colon.
module _ (lib : Library) (p q a b : String)
    (colonless : (s : String) → occurs 58 (safe_name lib s) ≡ 0) where
  -- the kind of a key, as what stands before its last character and the colon
  respelled : (r kind end hash : String) → r <> (kind <> end) <> hash ≡ ((r <> kind) <> end) <> hash
  respelled r kind end hash =
      sym (append_assoc r (kind <> end) hash) ∙ ap (λ z. z <> hash) (sym (append_assoc r kind end))

  pub token_apart_pending : redis_token_key lib p a ≢ redis_pending_key lib q b
  unfolding redis_token_key redis_pending_key
  token_apart_pending e =
      ends_apart (p <> "toke") (q <> "pendin") _ _ (safe_name lib a) (safe_name lib b) (colonless a)
        (colonless b) (λ x. omega (arith, x))
        (sym (respelled p "toke" "n:" (safe_name lib a))
          ∙ e
          ∙ respelled q "pendin" "g:" (safe_name lib b))

  pub token_apart_done : redis_token_key lib p a ≢ redis_done_key lib q b
  unfolding redis_token_key redis_done_key
  token_apart_done e =
      ends_apart (p <> "toke") (q <> "don") _ _ (safe_name lib a) (safe_name lib b) (colonless a)
        (colonless b) (λ x. omega (arith, x))
        (sym (respelled p "toke" "n:" (safe_name lib a))
          ∙ e
          ∙ respelled q "don" "e:" (safe_name lib b))
