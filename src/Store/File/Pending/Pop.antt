-- ===== src/Store/File/Pending/Pop.antt =====
-- `Pop` of the file store, in store/file.go, for one process.
use mcp_authkit_go.Base.{Bool, String, none, ◌≡◌, ◌≢◌, inl, inr, refl, ap, ◌∙◌, arith, eq_iff}
use mcp_authkit_go.Base.Action.{Error, ok, Result-cases}
use mcp_authkit_go.Host.{Host, Library, Json, Files, Removal, removed, IsHost}
use mcp_authkit_go.Value.{GoMap, Value}
use mcp_authkit_go.Store.File.{FilePendingStore, meta_path}
use mcp_authkit_go.Store.File.Pending.{RecordJson, read_record, pop}

module _ {W N : Type 0} (host : Host W) (lib : Library) (json : Json (GoMap (Value N)))
    (records : RecordJson (Value N)) (s : FilePendingStore) {files : W → Files}
    {is_temp : String → Bool} (h : IsHost host files is_temp)
    (removes : (p : String) (w : W) (e : Error) → (host.remove p w).0 ≢ Removal.failed e) where
  pub remove-none : (p : String) (w : W) → files (host.remove p w).1 p ≡ none
  remove-none p w = of_removal (host.remove p w).0 refl
    where
      of_removal : (r : Removal) → (host.remove p w).0 ≡ r → files (host.remove p w).1 p ≡ none
      of_removal removed e =
          ap (λ (f : Files). f p) (h.files-remove p w e) ∙ ground (arith, eq_iff p p)
      of_removal Removal.missing e =
          let (gone, same) = h.files-remove_missing p w e in ap (λ (f : Files). f p) same ∙ gone
      of_removal (Removal.failed x) e = absurd (removes p w x e)

  -- Where the system does not refuse to remove a file, a pop that returns without an error leaves
  -- no file for its key, and a pop of the key that comes right after it returns nil.
  pub file_pop_once :
      (key : String) (w : W) (m : GoMap (Value N))
      → (pop host lib json records s key w).0 ≡ ok m
      → let w' = (pop host lib json records s key w).1 in
        (files w' (meta_path lib s key) ≡ none) × ((pop host lib json records s key w').0 ≡ ok none)
  unfolding pop read_record
  file_pop_once key w m e =
      let path = meta_path lib s key in
      let w1 = (read_record host lib json records s path w).1 in
      elim (Result-cases (read_record host lib json records s path w).0) [
        | inr (x, bad) ↦ absurd (ground arith)
        | inl (entry, found) ↦
            let w' = (pop host lib json records s key w).1 in
            let at : w' ≡ (host.remove path w1).1 = ground arith in
            let gone : files w' path ≡ none = ap (λ x. files x path) at ∙ remove-none path w1 in
            (gone, ground (arith, h.read_lem path w', gone))
      ]
