-- ===== src/Vfs/Delete.antt =====
-- internal/master/vfs.go: the deletion of a path with all that lies below it.
use weave_ftpd.Base.{
  List, [], ◌∷◌, Bool, true, false, ◌&&◌, ◌||◌, not, Option, none, some, if◌then◌else◌, Text, codes,
  text_eq, has_suffix, to_lower, trim_space, any, lookup, insert, delete,
}
use weave_ftpd.Base.Int.{ℤ, pos, leb_ℤ}
use weave_ftpd.GoPath.Clean.{slash, base}
use weave_ftpd.Vfs.Paths.{clean_vfs_path, parent}
use weave_ftpd.Vfs.State.{RequestRecord, RequestFillRecord, Vfs, VfsFile, has_key}
use weave_ftpd.Vfs.Index.{delete_file_entry_only, mark_persist_dirty}
use weave_ftpd.Vfs.Tree.{touch_ancestors}
use weave_ftpd.Vfs.Clear.{drop_child}
use weave_ftpd.Vfs.Collect.{children_of, collect_subtree}

abbrev is_filled_zip : Text → Option VfsFile → Bool
is_filled_zip path none = false
is_filled_zip path (some f) =
    not (f.is_dir || (f.is_symlink || leb_ℤ f.size (pos 0)))
    && has_suffix (to_lower (trim_space (base path))) (codes ".zip")

unfoldable pub has_zip_archive : Text → Vfs → Bool
unfolding any
has_zip_archive dir_path v =
    any (λ c. is_filled_zip c (lookup c v.files)) (children_of (clean_vfs_path dir_path) v)

abbrev is_no_request : List RequestRecord → Bool
is_no_request [] = true
is_no_request (r ∷ rs) = false

abbrev is_no_fill : List RequestFillRecord → Bool
is_no_fill [] = true
is_no_fill (r ∷ rs) = false

abbrev is_nil {ℓ} : {A : Type ℓ} → Option A → Bool
is_nil none = true
is_nil (some a) = false

unfoldable pub clear_zip_meta : Text → Vfs → Vfs
clear_zip_meta dir_path v =
    let d = clean_vfs_path dir_path in
    elim (lookup d v.dir_meta) [
      | none ↦ v
      | some meta ↦
          if is_nil meta.sfv_entries
            && (is_no_request meta.request_entries && is_no_fill meta.request_fill_entries)
          then record v { dir_meta = delete d v.dir_meta }
          else record v {
            dir_meta =
                insert d (record meta { zip_expected_parts = pos 0; zip_diz_checksum = 0 })
                  v.dir_meta;
          }
    ]

-- One round of the loop in deletePathLocked; the link to `path` itself is gone already.
unfoldable pub remove_path : Text → Text → Vfs → Vfs
unfolding drop_child
remove_path path removed v =
    let w = delete_file_entry_only removed v in
    let w' : Vfs = record w {
      children = delete removed w.children;
      dir_meta = delete removed w.dir_meta;
    } in
    if text_eq removed path then w' else drop_child removed w'

unfoldable pub remove_paths : Text → List Text → Vfs → Vfs
unfolding remove_path
remove_paths path [] v = v
remove_paths path (removed ∷ rest) v = remove_paths path rest (remove_path path removed v)

abbrev pub is_diz : Text → Bool
is_diz name = text_eq name (codes "file_id.diz")

unfoldable pub forget_sfv : Text → Vfs → Vfs
forget_sfv path v =
    if has_suffix (to_lower (base path)) (codes ".sfv")
    then record v { dir_meta = delete (parent path) v.dir_meta }
    else v

unfoldable pub forget_zip : Text → Vfs → Vfs
forget_zip path v =
    let name = to_lower (base path) in
    if (is_diz name || has_suffix name (codes ".zip")) && not (has_zip_archive (parent path) v)
    then clear_zip_meta (parent path) v
    else if is_diz name
    then clear_zip_meta (parent path) v
    else v

-- The file system afterwards, and whether there was an entry.
unfoldable pub delete_path : Text → Vfs → Vfs × Bool
unfolding forget_sfv forget_zip drop_child
delete_path file_path v =
    let path = clean_vfs_path file_path in
    if not (has_key path v.files)
    then (v, false)
    else let w = forget_sfv path v in
      (forget_zip path (remove_paths path (collect_subtree path w) (drop_child path w)), true)

unfoldable pub delete_file : ℤ → Text → Vfs → Vfs
delete_file now file_path v =
    let path = clean_vfs_path file_path in
    let deleted = delete_path path v in
    if text_eq path slash
    then v
    else if not deleted.1
    then v
    else mark_persist_dirty (touch_ancestors now (parent path) now deleted.0)
