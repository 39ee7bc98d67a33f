-- ===== src/Store/File/Atomic.antt =====
-- `atomicWriteFile` of store/file.go is atomic: a reader of the path sees the old content or the
-- new.
use mcp_authkit_go.Base.{String, Bool, true, false, some, ◌≡◌, ◌≢◌, ap, arith, ◌∙◌}
use mathlib.Core.Bool.{false≢true}
use mcp_authkit_go.Base.{sym, eq_iff, inl, inr}
use mcp_authkit_go.Base.Action.{Error, Result, ok, err, Result-cases}
use mcp_authkit_go.Host.{Bytes, Host, Library, Files, IsHost}
use mcp_authkit_go.Store.File.{fill_and_rename, atomic_write_file}

-- What a write of `content` to `path` may do to the files: on success the path has the content, on
-- a failure it has what it had, and other paths that are no temporary files keep theirs.
abbrev pub Writes : (String → Bool) → String → Bytes → Result (Unit {0}) → Files → Files → Type 0
Writes is_temp path content r before now =
    (r ≡ ok tt → now path ≡ some content)
    × ((e : Error) → r ≡ err e → now path ≡ before path)
    × ((q : String) → is_temp q ≡ false → q ≢ path → now q ≡ before q)

module _ {W : Type 0} (host : Host W) (lib : Library) {files : W → Files} {is_temp : String → Bool}
    (h : IsHost host files is_temp) (path : String) (plain : is_temp path ≡ false)
    (content : Bytes) where
  module _ (temp : String) (w : W) (t : is_temp temp ≡ true) where
    abbrev written : W
    written = (host.write temp content w).1

    abbrev closed : W
    closed = (host.close temp written).1

    ne_temp : (q : String) → is_temp q ≡ false → temp ≢ q
    ne_temp q f e = cc (ap is_temp e)

    closed-kept : (q : String) → is_temp q ≡ false → files closed q ≡ files w q
    closed-kept q f =
        ap (λ (x : Files). x q) (h.files-close temp written)
        ∙ h.files-write_ne temp q content w (ne_temp q f)

    removed-kept :
        (q : String) → is_temp q ≡ false → files (host.remove temp closed).1 q ≡ files w q
    removed-kept q f = h.files-remove_ne temp q closed (ne_temp q f) ∙ closed-kept q f

    renamed :
        (host.write temp content w).0 ≡ ok tt
        → (host.rename temp path closed).0 ≡ ok tt
        → (files (host.rename temp path closed).1 path ≡ some content)
          × ((q : String)
              → is_temp q ≡ false
              → q ≢ path
              → files (host.rename temp path closed).1 q ≡ files w q)
    renamed good done =
        let moved = h.files-rename temp path closed done in
        let held : files closed temp ≡ some content =
          ap (λ (x : Files). x temp) (h.files-close temp written)
          ∙ h.files-write_self temp content w good in
        (
          ap (λ (x : Files). x path) moved ∙ ground (arith, eq_iff path path, held),
          λ q f n.
              ap (λ (x : Files). x q) moved
              ∙ ground (arith, eq_iff path q, eq_iff temp q, ne_temp q f, closed-kept q f),
        )

    fill_and_rename-Writes :
        let r = fill_and_rename host lib temp path content w in
        Writes is_temp path content r.0 (files w) (files r.1)
    unfolding fill_and_rename
    fill_and_rename-Writes = elim (Result-cases (host.write temp content w).0) [
      | inr (e, bad) ↦ (
        λ f. ground arith,
        λ x f. ground (arith, removed-kept path plain),
        λ q f n. ground (arith, removed-kept q f),
      )
      | inl (_, good) ↦ elim (Result-cases (host.close temp written).0) [
        | inr (e, bad) ↦ (
          λ f. ground arith,
          λ x f. ground (arith, removed-kept path plain),
          λ q f n. ground (arith, removed-kept q f),
        )
        | inl (_, ok_closed) ↦ elim (Result-cases (host.rename temp path closed).0) [
          | inl (_, done) ↦
              let (new, kept) = renamed good done in
              (λ f. ground (arith, new), λ x f. ground arith, λ q f n. ground (arith, kept q f n))
          | inr (e, bad) ↦
              let same = h.files-rename_failed temp path e closed bad in
              let at = λ (q : String) (f : is_temp q ≡ false).
                ap (λ (x : Files). x q) same ∙ closed-kept q f in
              (
                λ f. ground arith,
                λ x f. ground (arith, at path plain),
                λ q f n. ground (arith, at q f),
              )
        ]
      ]
    ]

  module _ (w : W) where
    abbrev made : W
    made = (host.mkdir_all (lib.dir path) w).1

    abbrev with_temp : W
    with_temp = (host.create_temp (lib.dir path) made).1

    made-kept : (q : String) → files made q ≡ files w q
    made-kept q = ap (λ (x : Files). x q) (h.files-mkdir (lib.dir path) w)

    with_temp-kept : (q : String) → is_temp q ≡ false → files with_temp q ≡ files w q
    with_temp-kept q f =
        h.files-temp (lib.dir path) q made
          (λ e. false≢true (sym f ∙ (h.temp_new (lib.dir path) q made e).0))
        ∙ made-kept q

    -- For a path that is not one of a temporary file, on a file system that keeps its contract: on
    -- success the path holds the new content, on every failure what it held before, and no other
    -- path changes but those of temporary files.
    pub atomic_write_file-Writes :
        let r = atomic_write_file host lib path content w in
        Writes is_temp path content r.0 (files w) (files r.1)
    unfolding atomic_write_file
    atomic_write_file-Writes = elim (Result-cases (host.mkdir_all (lib.dir path) w).0) [
      | inr (e, bad) ↦ (
        λ f. ground arith,
        λ x f. ground (arith, made-kept path),
        λ q f n. ground (arith, made-kept q),
      )
      | inl (_, good) ↦ elim (Result-cases (host.create_temp (lib.dir path) made).0) [
        | inr (e, bad) ↦ (
          λ f. ground arith,
          λ x f. ground (arith, with_temp-kept path plain),
          λ q f n. ground (arith, with_temp-kept q f),
        )
        | inl (temp, found) ↦
            let is = (h.temp_new (lib.dir path) temp made found).0 in
            let (new, old, others) = fill_and_rename-Writes temp with_temp is in
            (
              λ f. ground (arith, new),
              λ x f. ground (arith, old x, with_temp-kept path plain),
              λ q f n. ground (arith, others q f n, with_temp-kept q f),
            )
      ]
    ]
